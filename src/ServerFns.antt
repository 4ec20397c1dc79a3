-- ===== src/ServerFns.antt =====
-- The application's hooks as callbacks: server/fns/fns.go, over `Call` of Webhook.SyncCall. Events that are emitted
-- are listed by their type. JSON is outside: what an answer says once it is decoded is an argument, and
-- `body_error` gives the error in the body of an answer, empty where it has none or is no JSON.
pub mod Answers
use go_pkg.Common.{
  ℕ, Bool, true, false, ◌&&◌, not, Bytes, bytes, is_empty, str_eq, Option, none, some, List, [],
  ◌∷◌, ◌++◌, if◌then◌else◌, ltb, leb,
}
use go_pkg.Webhook.Breaker.{CircuitBreaker}
use go_pkg.Webhook.SyncCall.{
  SyncCaller, Attempt, CallErr, circuit_open, transport, decode, call_error, Outcome, call,
}
use go_pkg.Endpoints.{Inspection, rejects, inspected}

-- `sanitizeCallError`.
unfoldable pub sanitize_call_error : (Bytes → Bytes) → Bytes → Bytes → Option CallErr → Option Bytes
sanitize_call_error body_error hook generic_msg none = none
sanitize_call_error body_error hook generic_msg (some circuit_open) = some generic_msg
sanitize_call_error body_error hook generic_msg (some transport) = some generic_msg
sanitize_call_error body_error hook generic_msg (some decode) = some generic_msg
sanitize_call_error body_error hook generic_msg (some (call_error status body)) =
    if leb 400 status && ltb status 500
    then if is_empty (body_error body)
      then some (hook ++ bytes " rejected")
      else some (body_error body)
    else some generic_msg

pub record TokenResp : Type 0 where
  pub user_id : Bytes
  pub is_anonymous : Bool

pub data TokenAnswer : Type 0 where
  refuses : Bytes → TokenAnswer
  accepts : Bytes → Bool → TokenAnswer

-- After the call, where there is no override.
unfoldable pub token_answer : Option Bytes → TokenResp → TokenAnswer
token_answer (some msg) resp = refuses msg
token_answer none resp =
    if not resp.is_anonymous && is_empty resp.user_id
    then refuses (bytes "authentication failed")
    else accepts resp.user_id resp.is_anonymous

unfoldable pub inspect_token :
    (Bytes → Bytes)
    → Option TokenAnswer
    → SyncCaller
    → (ℕ → Attempt)
    → TokenResp
    → TokenAnswer × CircuitBreaker
unfolding token_answer sanitize_call_error
inspect_token body_error (some answer) sync env resp = (answer, sync.breaker)
inspect_token body_error none sync env resp =
    let called = call sync env true in
    (
      token_answer
          (sanitize_call_error body_error (bytes "inspect_token") (bytes "authentication failed")
            called.error)
          resp,
      called.breaker,
    )

-- What `IssueTmpToken` makes of the answer.
abbrev pub to_inspection : TokenAnswer → Inspection
to_inspection (refuses msg) = rejects
to_inspection (accepts user_id is_anonymous) = inspected user_id is_anonymous

pub data Handled : Type 0 where
  outputs : Bytes → Bytes → Handled
  fails : Bytes → Handled

abbrev pub handled : Option Bytes → Bytes → Bytes → Handled
handled none output_type out_data = outputs output_type out_data
handled (some msg) output_type out_data = fails msg

-- `HandleMessage`, with the types of the events that it emits.
unfoldable pub handle_message :
    (Bytes → Bytes)
    → Bytes
    → SyncCaller
    → (ℕ → Attempt)
    → Bytes
    → Bytes
    → Handled × List Bytes × CircuitBreaker
unfolding sanitize_call_error
handle_message body_error mode sync env output_type out_data =
    if str_eq mode (bytes "forward")
    then (outputs [] [], bytes "message_received" ∷ [], sync.breaker)
    else if str_eq mode (bytes "disabled")
    then (outputs [] [], [], sync.breaker)
    else (let called = call sync env true in
        (
          handled
              (sanitize_call_error body_error (bytes "handle_message") (bytes "upstream error")
                called.error)
              output_type out_data,
          [],
          called.breaker,
        ))

abbrev pub established : Option Bytes → List Bytes
established none = bytes "on_new_connection_established" ∷ []
established (some msg) = []

-- `OnNewConnection`: `none` is its nil error.
unfoldable pub on_new_connection :
    (Bytes → Bytes) → SyncCaller → (ℕ → Attempt) → Option Bytes × List Bytes × CircuitBreaker
unfolding sanitize_call_error
on_new_connection body_error sync env =
    let called = call sync env false in
    let error =
      sanitize_call_error body_error (bytes "on_new_connection") (bytes "connection rejected")
        called.error in
    (error, established error, called.breaker)

-- `OnCloseConnection`, `OnReadError` and `OnWriteError`.
abbrev pub on_close_connection : List Bytes
on_close_connection = bytes "on_close_connection" ∷ []

abbrev pub on_read_error : List Bytes
on_read_error = bytes "on_read_error" ∷ []

abbrev pub on_write_error : List Bytes
on_write_error = bytes "on_write_error" ∷ []
