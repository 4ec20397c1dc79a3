-- ===== src/Endpoints/Entry.antt =====
-- A token lets its session in, once.
use go_pkg.Common.{
  ℕ, ◌+◌, ◌<◌, Bool, true, false, ◌≡◌, refl, Bytes, is_empty, Option, none, some, List, [], arith,
  Bool-cases, inl, inr, str_eq_refl,
}
use go_pkg.Common.Table.{Table, get-put, get-del}
use go_pkg.Domain.{Auth, Conn, gobwas, user_websocket_auth}
use go_pkg.IpLimiter
use go_pkg.Lifecycle.{Env, Faults, World, Effect, accepted, refused}
use go_pkg.Lifecycle.Admitted.{IsAdmitted, on_new_admits}
use go_pkg.Endpoints.{
  GwReply, AppCall, not_set, asked_first, asked_last, do_new_stuff, register_failed, Stored, set,
  get_del, token_ttl, Request, inspected, issued, connected, invalid_token, exchange,
  scan_conn_token, inspect_and_exchange, issue_tmp_token, connect, gobwas_endpoint,
}

-- Whether the application's callback lets the connection in, where it is set.
abbrev pub admits : AppCall → Bool
admits not_set = true
admits (asked_first ok) = ok
admits (asked_last ok) = ok

true-ne-false : ¬ (true ≡ false)
true-ne-false h = cc

-- How the endpoint ends for a new connection that the application lets in or not.
abbrev pub Enters : Bool → World → Conn → ℕ → GwReply × World × List Effect → Type 0
Enters true w conn now entered =
    (after : World) × (effects : List Effect) × (entered ≡ (connected, after, effects))
    × IsAdmitted w conn now after
Enters false w conn now entered = entered.0 ≡ register_failed

-- After a deletion the key is not found, whatever was stored.
get_del_again :
    (store : Table Stored) (key : Bytes) (now later : ℕ) (ok : Bool)
    → (get_del (get_del store key now true).1 key later ok).0 ≡ none
unfolding get_del
get_del_again store key now later ok = ground (arith, get-del key key store, str_eq_refl key)

module _ (encode_auth : Auth → Bytes) (decode_auth : Bytes → Option Auth)
    (decode-encode_auth : (a : Auth) → decode_auth (encode_auth a) ≡ some a) where
  -- The time of a token.
  scanned_in_time :
      (store : Table Stored) (token : Bytes) (a : Auth) (now later : ℕ)
      → later < now + token_ttl
      → (scan_conn_token encode_auth decode_auth
          (exchange encode_auth decode_auth store token a now true).1
          token
          later
          true).0
        ≡ some a
  unfolding exchange set scan_conn_token get_del
  scanned_in_time store token a now later soon =
      let stored : Stored = record { value = encode_auth a; gone_at = now + token_ttl } in
      rw (get-put token token stored store, str_eq_refl token)
        (ground (arith, soon, decode-encode_auth a))

  used_once :
      (store : Table Stored) (token : Bytes) (later again : ℕ) (ok : Bool)
      → (scan_conn_token encode_auth decode_auth
          (scan_conn_token encode_auth decode_auth store token later true).1
          token
          again
          ok).0
        ≡ none
  unfolding scan_conn_token
  used_once store token later again ok = rw (get_del_again store token later again ok) refl

  named_exchange :
      {L : Type 0} (fresh : L) (limiter_allow : L → ℕ → Bool × L) (mac : Bytes → Bytes)
      (limiters : Table (IpLimiter.Entry L)) (store : Table Stored) (r : Request)
      (username token anon_id : Bytes) (now : ℕ)
      → is_empty r.authorization ≡ false
      → (IpLimiter.allow fresh limiter_allow limiters r.client_ip now).0 ≡ true
      → is_empty username ≡ false
      → is_empty r.pipewave_id ≡ false
      → let a : Auth = record { user_id = username; instance_id = r.pipewave_id } in
        let reply =
          issue_tmp_token encode_auth decode_auth fresh limiter_allow mac limiters store r
            (inspected username false)
            token
            anon_id
            now
            true in
        (reply.0 ≡ issued token [])
        × (reply.2 ≡ (exchange encode_auth decode_auth store token a now true).1)
  unfolding issue_tmp_token inspect_and_exchange user_websocket_auth exchange set
  named_exchange fresh limiter_allow mac limiters store r username token anon_id now full allowed
        named instance =
      rw (full, allowed, named, instance) (refl, refl)

  admitted_by_all :
      (app : AppCall) (w after : World) (effects : List Effect)
      → admits app ≡ true
      → do_new_stuff encode_auth decode_auth app w (accepted after effects) ≡ accepted after effects
  unfolding do_new_stuff
  admitted_by_all not_set w after effects h = refl
  admitted_by_all (asked_first ok) w after effects h = rw h refl
  admitted_by_all (asked_last ok) w after effects h = rw h refl

  refused_by_app :
      (app : AppCall) (w after : World) (effects : List Effect)
      → admits app ≡ false
      → (w' : World) × (es : List Effect) × (do_new_stuff encode_auth decode_auth app w
            (accepted after effects)
          ≡ refused w' es)
  unfolding do_new_stuff
  refused_by_app not_set w after effects h = absurd (true-ne-false h)
  refused_by_app (asked_first ok) w after effects h = (w, [], rw h refl)
  refused_by_app (asked_last ok) w after effects h = (after, effects, rw h refl)

  -- Where decoding gives back what was encoded: a client that the application names and the limiter
  -- allows is issued a token, and within ten seconds the token opens the session of that
  -- user and of the instance in the request, which is then admitted here if the application's own callback
  -- admits it too, and is told that registering failed if that refuses. Used again, with whatever
  -- results and on whatever container, the token is refused and changes nothing.
  pub token_opens_once :
      {L : Type 0} (fresh : L) (limiter_allow : L → ℕ → Bool × L) (mac : Bytes → Bytes)
      (limiters : Table (IpLimiter.Entry L)) (store : Table Stored) (r : Request)
      (username token anon_id : Bytes) (now later : ℕ) (e : Env) (w : World) (handle : ℕ)
      (app : AppCall) (f : Faults) (pending : List Bytes)
      → is_empty r.authorization ≡ false
      → (IpLimiter.allow fresh limiter_allow limiters r.client_ip now).0 ≡ true
      → is_empty username ≡ false
      → is_empty r.pipewave_id ≡ false
      → is_empty token ≡ false
      → later < now + token_ttl
      → f.add_ok ≡ true
      → let a : Auth = record { user_id = username; instance_id = r.pipewave_id } in
        let conn : Conn = record { auth = a; core_type = gobwas; handle = handle } in
        let reply =
          issue_tmp_token encode_auth decode_auth fresh limiter_allow mac limiters store r
            (inspected username false)
            token
            anon_id
            now
            true in
        let entered =
          gobwas_endpoint encode_auth decode_auth e w reply.2 token later true true
            (some handle)
            app
            f
            pending in
        (reply.0 ≡ issued token [])
        × Enters (admits app) w conn later entered.0
        × ((e' : Env) (w' : World) (again : ℕ) (ok up : Bool) (h : Option ℕ) (app' : AppCall)
              (g : Faults) (ps : List Bytes)
            → (gobwas_endpoint encode_auth decode_auth e' w' entered.1 token again ok up h app' g
                ps).0
              ≡ (invalid_token, w', []))
  unfolding gobwas_endpoint connect
  token_opens_once fresh limiter_allow mac limiters store r username token anon_id now later e w
        handle app f pending full allowed named instance given soon ok =
      let a : Auth = record { user_id = username; instance_id = r.pipewave_id } in
      let conn : Conn = record { auth = a; core_type = gobwas; handle = handle } in
      let issuing =
        named_exchange fresh limiter_allow mac limiters store r username token anon_id now full
          allowed named instance in
      let (after, effects, accepts, admitted) =
        on_new_admits e w conn later f pending (ground (arith, named, instance)) ok in
      (
        issuing.0,
        elim (Bool-cases (admits app)) [
          | inl let_in ↦ rw let_in (
            after,
            effects,
            rw
                (
                  given,
                  issuing.1,
                  scanned_in_time store token a now later soon,
                  accepts,
                  admitted_by_all app w after effects let_in,
                )
                refl,
            admitted,
          )
          | inr kept_out ↦
              let (w', es, refuses) = refused_by_app app w after effects kept_out in
              rw kept_out (
                rw
                  (given, issuing.1, scanned_in_time store token a now later soon, accepts, refuses)
                  refl)
        ],
        λ e' w' again ok' up h app' g ps. rw (given, used_once) refl,
      )
