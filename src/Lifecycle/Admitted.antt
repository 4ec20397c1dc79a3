-- ===== src/Lifecycle/Admitted.antt =====
-- A new connection that is admitted, and what then holds.
use go_pkg.Common.{
  subst, ap, sym, ℕ, true, false, ◌≡◌, refl, Bytes, str_eq_refl, Option, none, some, is_some, List,
  [], ◌∷◌, ◌++◌, map, if◌then◌else◌, Option-cases, inl, inr, arith, ◌∙◌,
}
use go_pkg.Common.Table.{get-put_self}
use go_pkg.Common.Nested.{get2}
use go_pkg.Domain.{Auth, same_session, Conn, CoreType, connected, temp_disconnected}
use go_pkg.Connections.{get_connection}
use go_pkg.Connections.Lookup.{get_connection-add_connection}
use go_pkg.RateLimit
use go_pkg.ActiveConns.{Row, add_connection, upserted}
use go_pkg.ActiveConns.Rows.{
  same_key, get2-add_connection, get2-remove_connection, get2-update_status,
}
use go_pkg.Lifecycle.{
  Env, Faults, Container, World, Effect, on_close, forget, leave, remove_row, close_existing,
  meet_previous, previous_row, admit, claim, meet_and_claim, no_faults, delivers, counts_accepted,
  on_new, accepted,
}
use go_pkg.Lifecycle.Admission.{
  get_connection-close_existing, id-close_existing, KeepsMaps, meet_previous-KeepsMaps,
  has_empty_part, meet_previous-is_some,
}

rows-close_existing :
    (w : World) (a : Auth) (now : ℕ) (f : Faults) (u i : Bytes)
    → same_key a.user_id a.instance_id u i ≡ false
    → get2 u i (close_existing w a now f).0.rows ≡ get2 u i w.rows
unfolding close_existing on_close leave remove_row forget
rows-close_existing w a now f u i other = ground (
  arith,
  other,
  get2-remove_connection w.rows a.user_id a.instance_id u i,
  get2-update_status w.rows a.user_id a.instance_id u i temp_disconnected,
)

lookup-new :
    (e : RateLimit.Env) (r : RateLimit.RateLimiter) (a : Auth)
    → is_some (RateLimit.lookup (RateLimit.new e r a).1 a) ≡ true
unfolding RateLimit.lookup RateLimit.new RateLimit.new_anonymous RateLimit.user_limiter_of
    RateLimit.add_session
lookup-new e r a = ground (
  arith,
  get-put_self a.instance_id
      (record { handle = r.allocated; rate = e.anonymous_rate; burst = e.anonymous_burst })
      r.anonymous_limiter,
  get-put_self a.user_id (record { handle = r.allocated; rate = e.user_rate; burst = e.user_burst })
      r.user_limiter,
)

-- What an admitted connection leaves, seen from the state before.
pub record IsAdmitted (w : World) (conn : Conn) (now : ℕ) (after : World) : Type 0 where
  pub found_here :
      (b : Auth)
      → get_connection after.here.conns b
        ≡ (if same_session conn.auth b then some conn else get_connection w.here.conns b)
  pub row : Row
  pub row_written : get2 conn.auth.user_id conn.auth.instance_id after.rows ≡ some row
  pub held_here : row.holder_id ≡ w.here.id
  pub id_kept : after.here.id ≡ w.here.id
  pub row_connected : row.status ≡ connected
  pub row_beats : row.last_heartbeat ≡ now
  pub others_kept :
      (u i : Bytes)
      → same_key conn.auth.user_id conn.auth.instance_id u i ≡ false
      → get2 u i after.rows ≡ get2 u i w.rows
  pub limited : is_some (RateLimit.lookup after.here.limiter conn.auth) ≡ true

upserted_fields :
    (o : Option Row) (holder : Bytes) (t : CoreType) (now : ℕ)
    → ((upserted o holder t now).holder_id ≡ holder)
      × ((upserted o holder t now).status ≡ connected)
      × ((upserted o holder t now).last_heartbeat ≡ now)
upserted_fields none holder t now = (refl, refl, refl)
upserted_fields (some row) holder t now = (refl, refl, refl)

-- The world once the switch is over and the row is written.
claim-IsAdmitted :
    (e : Env) (w w' : World) (c : Container) (conn : Conn) (now : ℕ) (f : Faults)
    → w' ≡ (close_existing w conn.auth now f).0
    → c.conns ≡ w'.here.conns
    → c.id ≡ w'.here.id
    → IsAdmitted w conn now (
        admit e
          (record {
            here = c;
            rows =
                add_connection w'.rows c.id conn.auth.user_id conn.auth.instance_id conn.core_type
                  now;
          })
          conn
          now)
unfolding admit
claim-IsAdmitted e w w' c conn now f ew ec ei =
    let u = conn.auth.user_id in
    let i = conn.auth.instance_id in
    let fields = upserted_fields (get2 u i w'.rows) c.id conn.core_type now in
    record {
      found_here = λ b.
          get_connection-add_connection c.conns conn b
          ∙ rw (ec, ew, get_connection-close_existing w conn.auth b now f)
              (elim (same_session conn.auth b)
                as (λ t.
                  (if t then some conn else (if t then none else get_connection w.here.conns b))
                  ≡ (if t then some conn else get_connection w.here.conns b)) [
                    | true ↦ refl
                    | false ↦ refl
                  ]);
      row = upserted (get2 u i w'.rows) c.id conn.core_type now;
      row_written =
          get2-add_connection w'.rows c.id u i u i conn.core_type now
          ∙ rw (str_eq_refl u, str_eq_refl i) refl;
      id_kept = ei ∙ ap (λ (x : World). x.here.id) ew ∙ id-close_existing w conn.auth now f;
      held_here =
          fields.0 ∙ ei ∙ ap (λ (x : World). x.here.id) ew ∙ id-close_existing w conn.auth now f;
      row_connected = fields.1;
      row_beats = fields.2;
      others_kept = λ v j other.
          get2-add_connection w'.rows c.id u i v j conn.core_type now
          ∙ rw (other, ew) (rows-close_existing w conn.auth now f v j other);
      limited = lookup-new e.limits c.limiter conn.auth;
    }

pub on_new_step :
    (e : Env) (w : World) (conn : Conn) (now : ℕ) (f : Faults) (pending : List Bytes)
    (c : Container) (signals : List Effect)
    → let w' = (close_existing w conn.auth now f).0 in
      meet_previous w'.here conn.auth (previous_row e w'.rows conn.auth now f.get_ok)
        ≡ some (c, signals)
      → on_new e w conn now f pending
        ≡ claim e
            (record w' { here = c })
            conn
            now
            f.add_ok
            pending
            ((close_existing w conn.auth now f).1 ++ signals)
unfolding on_new meet_and_claim
on_new_step e w conn now f pending c signals s = rw (s, meet_and_claim) refl

-- Where the switch leads to a container, the connection is claimed by it.
pub IsAdmitted-via :
    (e : Env) (w : World) (conn : Conn) (now : ℕ) (f : Faults) (pending : List Bytes)
    (c : Container) (signals : List Effect)
    → let w' = (close_existing w conn.auth now f).0 in
      f.add_ok ≡ true
      → meet_previous w'.here conn.auth (previous_row e w'.rows conn.auth now f.get_ok)
        ≡ some (c, signals)
      → (after : World) × (effects : List Effect) × (on_new e w conn now f pending
          ≡ accepted after effects)
        × IsAdmitted w conn now after
        × (after.here.hub ≡ c.hub)
        × (after.here.shutting_down ≡ c.shutting_down)
unfolding claim admit
IsAdmitted-via e w conn now f pending c signals ok s =
    let w' = (close_existing w conn.auth now f).0 in
    let o = previous_row e w'.rows conn.auth now f.get_ok in
    let k = subst (KeepsMaps w'.here) s (meet_previous-KeepsMaps w'.here conn.auth o) in
    (
      admit e
          (record {
            here = c;
            rows =
                add_connection w'.rows c.id conn.auth.user_id conn.auth.instance_id conn.core_type
                  now;
          })
          conn now,
      (close_existing w conn.auth now f).1
          ++ signals
          ++ (map (delivers conn) pending ++ counts_accepted ∷ []),
      on_new_step e w conn now f pending c signals s ∙ rw ok refl,
      claim-IsAdmitted e w w' c conn now f refl k.1 k.0,
      refl,
      refl,
    )

-- A session with a user and an instance whose row can be written is admitted, whatever other
-- statements fail: it is then found here under its connection and every other session as before,
-- its row says that it is connected here as of now, no other row has changed, and it has a limiter.
pub on_new_admits :
    (e : Env) (w : World) (conn : Conn) (now : ℕ) (f : Faults) (pending : List Bytes)
    → has_empty_part conn.auth ≡ false
    → f.add_ok ≡ true
    → (after : World) × (effects : List Effect) × (on_new e w conn now f pending
        ≡ accepted after effects)
      × IsAdmitted w conn now after
on_new_admits e w conn now f pending parts ok =
    let w' = (close_existing w conn.auth now f).0 in
    let o = previous_row e w'.rows conn.auth now f.get_ok in
    elim (Option-cases (meet_previous w'.here conn.auth o)) [
      | inl nothing ↦ absurd (ground (arith, meet_previous-is_some w'.here conn.auth o))
      | inr ((c, signals), s) ↦
          let (after, effects, accepts, admitted, same_hub, same_signal) =
            IsAdmitted-via e w conn now f pending c signals ok s in
          (after, effects, accepts, admitted)
    ]

pub close_existing-none :
    (w : World) (a : Auth) (now : ℕ) (f : Faults)
    → get_connection w.here.conns a ≡ none
    → close_existing w a now f ≡ (w, [])
unfolding close_existing
close_existing-none w a now f nothing = rw (nothing, close_existing) refl

-- Where no connection of the session is here.
pub IsAdmitted-when_met :
    (e : Env) (w : World) (conn : Conn) (now : ℕ) (pending : List Bytes) (signals : List Effect)
    → get_connection w.here.conns conn.auth ≡ none
    → meet_previous w.here conn.auth (previous_row e w.rows conn.auth now true)
      ≡ some (w.here, signals)
    → (after : World) × (on_new e w conn now no_faults pending
        ≡ accepted after (signals ++ (map (delivers conn) pending ++ counts_accepted ∷ [])))
      × IsAdmitted w conn now after
      × (after.here.hub ≡ w.here.hub)
unfolding on_new meet_and_claim claim admit
IsAdmitted-when_met e w conn now pending signals nothing met =
    let closed = close_existing-none w conn.auth now no_faults nothing in
    (
      admit e
          (record {
            here = w.here;
            rows =
                add_connection w.rows w.here.id conn.auth.user_id conn.auth.instance_id
                  conn.core_type now;
          })
          conn now,
      ap (λ p. meet_and_claim e p.0 p.1 conn now no_faults pending) closed
          ∙ rw (met, meet_and_claim) refl,
      claim-IsAdmitted e w w w.here conn now no_faults (sym (ap (λ p. p.0) closed)) refl refl,
      refl,
    )
