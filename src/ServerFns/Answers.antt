-- ===== src/ServerFns/Answers.antt =====
-- What the hooks let through: failures close, and clients are told nothing of the backend that it did not mean for
-- them.
use go_pkg.Common.{
  ◌⊎◌, ℕ, ◌+◌, ◌≤◌, ◌<◌, Bool, true, false, ◌&&◌, not, ◌≡◌, ◌≢◌, refl, ap, ◌∙◌, Bytes, bytes,
  is_empty, Option, none, some, [], ◌∷◌, ◌++◌, ltb, leb, arith, Bool-cases, inl, inr,
}
use go_pkg.Common.Table.{Table}
use go_pkg.Domain.{Auth, user_websocket_auth, anonymous_user_websocket_auth}
use go_pkg.Webhook.Breaker.{CircuitBreaker}
use go_pkg.Webhook.SyncCall.{
  SyncCaller, Attempt, CallErr, circuit_open, transport, decode, call_error, call, new_sync_caller,
}
use go_pkg.Webhook.SyncCall.Retry.{GotTwoHundred, success_needs_2xx}
use go_pkg.AnonInstance.{mint_or_read_anonymous_instance_id}
use go_pkg.AnonInstance.Tokens.{is_empty-mint}
use go_pkg.IpLimiter
use go_pkg.Endpoints.{
  Stored, Request, Inspection, inspected, issue_tmp_token, inspect_and_exchange, issue_panics,
  exchange, exchanged, set,
}
use go_pkg.ServerFns.{
  sanitize_call_error, TokenResp, token_answer, inspect_token, to_inspection, on_new_connection,
  established,
}

-- A client that is told of a failed callback reads the general text of the hook, or that the hook
-- rejected, or else what a backend that answered with a status from 400 to 499 put into the body for it: never anything of
-- another failure.
pub told_what_was_meant :
    (body_error : Bytes → Bytes) (hook generic_msg : Bytes) (err : Option CallErr) (msg : Bytes)
    → sanitize_call_error body_error hook generic_msg err ≡ some msg
    → (msg ≡ generic_msg)
      ⊎ ((msg ≡ hook ++ bytes " rejected")
          ⊎ ((status : ℕ) × (body : Bytes) × (err ≡ some (call_error status body))
              × (400 ≤ status)
              × (status < 500)
              × (msg ≡ body_error body)
              × (is_empty msg ≡ false)))
unfolding sanitize_call_error
told_what_was_meant body_error hook generic_msg none msg h = cc
told_what_was_meant body_error hook generic_msg (some circuit_open) msg h = inl cc
told_what_was_meant body_error hook generic_msg (some transport) msg h = inl cc
told_what_was_meant body_error hook generic_msg (some decode) msg h = inl cc
told_what_was_meant body_error hook generic_msg (some (call_error status body)) msg h =
    elim (Bool-cases (leb 400 status && ltb status 500)) [
      | inr other ↦ inl (ground (arith, other, h))
      | inl meant ↦ elim (Bool-cases (is_empty (body_error body))) [
        | inl nothing ↦ inr (inl (ground (arith, meant, nothing, h)))
        | inr said ↦
            let e : msg ≡ body_error body = ground (arith, meant, said, h) in
            inr (
              inr (
                status,
                body,
                refl,
                ground (arith, meant),
                ground (arith, meant),
                e,
                ap is_empty e ∙ said,
              ))
      ]
    ]

sanitized_none :
    (body_error : Bytes → Bytes) (hook generic_msg : Bytes) (err : Option CallErr)
    → sanitize_call_error body_error hook generic_msg err ≡ none
    → err ≡ none
unfolding sanitize_call_error
sanitized_none body_error hook generic_msg none h = refl
sanitized_none body_error hook generic_msg (some circuit_open) h = cc
sanitized_none body_error hook generic_msg (some transport) h = cc
sanitized_none body_error hook generic_msg (some decode) h = cc
sanitized_none body_error hook generic_msg (some (call_error status body)) h =
    absurd (ground (arith, h))

-- A new connection is admitted only if the last of the posts that asked for it got a 2xx answer, and there was one;
-- the event that it is established is emitted exactly if it is admitted.
pub admission_needs_2xx :
    (body_error : Bytes → Bytes) (b : CircuitBreaker) (retry_max : ℕ) (env : ℕ → Attempt)
    → let sync = new_sync_caller b retry_max in
      let r = on_new_connection body_error sync env in
      (r.0 ≡ none
        → (r.1 ≡ bytes "on_new_connection_established" ∷ [])
          × ((k : ℕ) × ((call sync env false).posts ≡ k + 1) × GotTwoHundred (env k)))
      × ((msg : Bytes) → r.0 ≡ some msg → r.1 ≡ [])
unfolding on_new_connection
admission_needs_2xx body_error b retry_max env =
    let err = (call (new_sync_caller b retry_max) env false).error in
    (
      λ admitted. (
        ap established admitted,
        success_needs_2xx b retry_max env false (
            sanitized_none body_error (bytes "on_new_connection") (bytes "connection rejected") err
              admitted),
      ),
      λ msg refused. ap established refused,
    )

IsNamed : Inspection → Type 0
IsNamed (inspected u i) = i ≡ false → is_empty u ≡ false
IsNamed Inspection.rejects = Unit {0}
IsNamed Inspection.not_implemented = ⊥

answer-IsNamed :
    (err : Option Bytes) (resp : TokenResp) → IsNamed (to_inspection (token_answer err resp))
unfolding IsNamed token_answer
answer-IsNamed (some msg) resp = tt
answer-IsNamed none resp = elim (Bool-cases (not resp.is_anonymous && is_empty resp.user_id)) [
  | inl bad ↦ rw bad tt
  | inr good ↦ rw good (λ named. ground (arith, good, named))
]

user_named :
    (u i : Bytes) → is_empty u ≡ false → is_empty i ≡ false → user_websocket_auth u i ≢ none
unfolding user_websocket_auth
user_named u i h k e = absurd (ground (arith, h, k, e))

anonymous_named : (i : Bytes) → is_empty i ≡ false → anonymous_user_websocket_auth i ≢ none
unfolding anonymous_user_websocket_auth
anonymous_named i h e = absurd (ground (arith, h, e))

exchange_replies :
    (encode_auth : Auth → Bytes) (decode_auth : Bytes → Option Auth) (store : Table Stored)
    (nano_id anon_id : Bytes) (now : ℕ) (ok : Bool) (a : Option Auth)
    → a ≢ none
    → (exchanged encode_auth decode_auth store nano_id anon_id now ok a).0 ≢ issue_panics
unfolding exchange set
exchange_replies encode_auth decode_auth store nano_id anon_id now ok none h e = absurd (h refl)
exchange_replies encode_auth decode_auth store nano_id anon_id now true (some a) h e = cc
exchange_replies encode_auth decode_auth store nano_id anon_id now false (some a) h e = cc

named_replies :
    (encode_auth : Auth → Bytes) (decode_auth : Bytes → Option Auth) (mac : Bytes → Bytes)
    (store : Table Stored) (r : Request) (inspection : Inspection) (token_id anon_id : Bytes)
    (now : ℕ) (ok : Bool)
    → IsNamed inspection
    → (inspect_and_exchange encode_auth decode_auth mac store r inspection token_id anon_id now
        ok).0
      ≢ issue_panics
unfolding IsNamed inspect_and_exchange
named_replies encode_auth decode_auth mac store r Inspection.not_implemented token_id anon_id now ok
      named e =
    absurd named
named_replies encode_auth decode_auth mac store r Inspection.rejects token_id anon_id now ok named
      e =
    cc
named_replies encode_auth decode_auth mac store r (inspected u true) token_id anon_id now ok named
      e =
    let id = mint_or_read_anonymous_instance_id mac now anon_id r.pipewave_id in
    exchange_replies encode_auth decode_auth store token_id id now ok
      (anonymous_user_websocket_auth id)
      (anonymous_named id (is_empty-mint mac now anon_id r.pipewave_id)) e
named_replies encode_auth decode_auth mac store r (inspected u false) token_id anon_id now ok named
      e =
    elim (Bool-cases (is_empty r.pipewave_id)) [
      | inl missing ↦ absurd (ground (arith, missing, e))
      | inr given ↦
          exchange_replies encode_auth decode_auth store token_id [] now ok
            (user_websocket_auth u r.pipewave_id) (user_named u r.pipewave_id (named refl) given)
            (rw given at e)
    ]

-- Where the callbacks decide, `IssueTmpToken` does not panic, whatever the backend answers, the
-- request says and however the token store and the limiter are: an answer that names nobody is refused before a
-- session is made of it.
pub issue_never_panics :
    (encode_auth : Auth → Bytes) (decode_auth : Bytes → Option Auth) (body_error : Bytes → Bytes)
    (sync : SyncCaller) (env : ℕ → Attempt) (resp : TokenResp) {L : Type 0} (fresh : L)
    (limiter_allow : L → ℕ → Bool × L) (mac : Bytes → Bytes) (limiters : Table (IpLimiter.Entry L))
    (store : Table Stored) (r : Request) (token_id anon_id : Bytes) (now : ℕ) (ok : Bool)
    → let inspection = to_inspection (inspect_token body_error none sync env resp).0 in
      (issue_tmp_token encode_auth decode_auth fresh limiter_allow mac limiters store r inspection
        token_id anon_id now ok).0
      ≢ issue_panics
unfolding issue_tmp_token inspect_token
issue_never_panics encode_auth decode_auth body_error sync env resp fresh limiter_allow mac limiters
      store r token_id anon_id now ok e =
    let err =
      sanitize_call_error body_error (bytes "inspect_token") (bytes "authentication failed")
        (call sync env true).error in
    let inspection = to_inspection (token_answer err resp) in
    elim (Bool-cases (is_empty r.authorization)) [
      | inl missing ↦ absurd (ground (arith, missing, e))
      | inr given ↦
          elim (Bool-cases (IpLimiter.allow fresh limiter_allow limiters r.client_ip now).0) [
            | inr throttled ↦ absurd (ground (arith, given, throttled, e))
            | inl allowed ↦
                named_replies encode_auth decode_auth mac store r inspection token_id anon_id now ok
                  (answer-IsNamed err resp) (rw (given, allowed) at e)
          ]
    ]
