-- ===== src/AdminApi.antt =====
-- The admin API: server/restapi/mux.go and handlers.go. What a service answers to a call is the argument
-- `svc`; a body that is no JSON of its type is `none`. Headers are ASCII. The texts of the answers are left out, and
-- durations are integers in milliseconds.
pub mod Keys
use go_pkg.Common.{
  ℕ, Bool, true, false, ◌&&◌, ◌||◌, not, Bytes, bytes, is_empty, str_eq, Option, none, some, List,
  [], ◌∷◌, ◌++◌, if◌then◌else◌, ◌==◌,
}
use go_pkg.Common.Table.{Table}
use go_pkg.Common.Integers.{ℤ, is_positive}
use go_pkg.Services.{SessionInfo}

-- The calls of the services, with a payload that may be nil.
pub data Call : Type 0 where
  sends_to_session : Bytes → Bytes → Bytes → Option Bytes → Call
  sends_to_session_with_ack : Bytes → Bytes → Bytes → Option Bytes → ℤ → Call
  sends_to_user : Bytes → Bytes → Option Bytes → Call
  sends_to_user_with_ack : Bytes → Bytes → Option Bytes → ℤ → Call
  sends_to_users : List Bytes → Bytes → Option Bytes → Call
  sends_to_all : Bytes → Option Bytes → Call
  sends_to_authenticated : Bytes → Option Bytes → Call
  sends_to_anonymous : Bytes → Option Bytes → Bool → List Bytes → Call
  disconnects_session : Bytes → Bytes → Call
  disconnects_user : Bytes → Call
  checks_online : Bytes → Call
  checks_online_multiple : List Bytes → Call
  gets_user_sessions : Bytes → Call
  cleans_up counts_inside counts_total reads_pool : Call

pub data Answer : Type 0 where
  fails : Bytes → Answer
  done : Answer
  acked : Bool → Answer
  online : Bool → Answer
  presence : Table Bool → Answer
  sessions : List SessionInfo → Answer
  counted : ℕ → Answer

pub data Response : Type 0 where
  unauthorized bad_request no_key : Response
  error_code : Bytes → Response
  ok : Answer → Response
  both_counts : Answer → Answer → Response
  public_key : Bytes → Response

pub record SendToSessionReq : Type 0 where
  pub user_id : Bytes
  pub instance_id : Bytes
  pub msg_type : Bytes
  pub payload : Option Bytes
  pub ack_timeout_ms : ℤ

pub record SendToUserReq : Type 0 where
  pub user_id : Bytes
  pub msg_type : Bytes
  pub payload : Option Bytes
  pub ack_timeout_ms : ℤ

pub record SendToUsersReq : Type 0 where
  pub user_ids : List Bytes
  pub msg_type : Bytes
  pub payload : Option Bytes

pub record BroadcastReq : Type 0 where
  pub target : Bytes
  pub msg_type : Bytes
  pub payload : Option Bytes
  pub instance_ids : List Bytes

pub data Route : Type 0 where
  post_session : Option SendToSessionReq → Route
  post_user : Option SendToUserReq → Route
  post_users : Option SendToUsersReq → Route
  post_broadcast : Option BroadcastReq → Route
  delete_session : Bytes → Bytes → Route
  delete_user : Bytes → Route
  get_sessions : Bytes → Route
  get_presence : Bytes → Route
  post_presence_batch : Option (List Bytes) → Route
  post_cleanup get_connections get_worker_pool get_public_key : Route

abbrev pub no_ids : List Bytes → Bool
no_ids [] = true
no_ids (x ∷ xs) = false

module _ (svc : Call → Answer) (key : Bytes) where
  abbrev pub reply : Answer → Response
  reply (fails code) = error_code code
  reply done = ok done
  reply (acked b) = ok (acked b)
  reply (online b) = ok (online b)
  reply (presence t) = ok (presence t)
  reply (sessions l) = ok (sessions l)
  reply (counted n) = ok (counted n)

  abbrev pub calling : Call → Response × List Call
  calling c = (reply (svc c), c ∷ [])

  unfoldable pub send_to_session : SendToSessionReq → Response × List Call
  send_to_session r =
      if is_empty r.user_id || is_empty r.instance_id || is_empty r.msg_type
      then (bad_request, [])
      else if is_positive r.ack_timeout_ms
      then calling
          (sends_to_session_with_ack r.user_id r.instance_id r.msg_type r.payload r.ack_timeout_ms)
      else calling (sends_to_session r.user_id r.instance_id r.msg_type r.payload)

  unfoldable pub send_to_user : SendToUserReq → Response × List Call
  send_to_user r =
      if is_empty r.user_id || is_empty r.msg_type
      then (bad_request, [])
      else if is_positive r.ack_timeout_ms
      then calling (sends_to_user_with_ack r.user_id r.msg_type r.payload r.ack_timeout_ms)
      else calling (sends_to_user r.user_id r.msg_type r.payload)

  unfoldable pub send_to_users : SendToUsersReq → Response × List Call
  send_to_users r =
      if no_ids r.user_ids || is_empty r.msg_type
      then (bad_request, [])
      else calling (sends_to_users r.user_ids r.msg_type r.payload)

  unfoldable pub broadcast : BroadcastReq → Response × List Call
  broadcast r =
      if is_empty r.msg_type
      then (bad_request, [])
      else if str_eq r.target (bytes "all")
      then calling (sends_to_all r.msg_type r.payload)
      else if str_eq r.target (bytes "authenticated")
      then calling (sends_to_authenticated r.msg_type r.payload)
      else if str_eq r.target (bytes "anonymous")
      then calling (sends_to_anonymous r.msg_type r.payload (no_ids r.instance_ids) r.instance_ids)
      else (bad_request, [])

  unfoldable pub check_online_batch : List Bytes → Response × List Call
  check_online_batch user_ids =
      if no_ids user_ids then (bad_request, []) else calling (checks_online_multiple user_ids)

  -- `monitoringConnections`: the second count is asked for only after the first.
  unfoldable pub monitoring_connections : Response × List Call
  monitoring_connections = elim (svc counts_inside) [
    | fails code ↦ (error_code code, counts_inside ∷ [])
    | inside ↦ elim (svc counts_total) [
      | fails code ↦ (error_code code, counts_inside ∷ counts_total ∷ [])
      | total ↦ (both_counts inside total, counts_inside ∷ counts_total ∷ [])
    ]
  ]

  -- `decodeBody`.
  abbrev pub with_body : {A : Type 0} → (A → Response × List Call) → Option A → Response × List Call
  with_body f none = (bad_request, [])
  with_body f (some r) = f r

  -- The handlers behind the key.
  unfoldable pub api : Route → Response × List Call
  unfolding send_to_session send_to_user send_to_users broadcast check_online_batch
      monitoring_connections
  api (post_session r) = with_body send_to_session r
  api (post_user r) = with_body send_to_user r
  api (post_users r) = with_body send_to_users r
  api (post_broadcast r) = with_body broadcast r
  api (delete_session user_id instance_id) = calling (disconnects_session user_id instance_id)
  api (delete_user user_id) = calling (disconnects_user user_id)
  api (get_sessions user_id) = calling (gets_user_sessions user_id)
  api (get_presence user_id) = calling (checks_online user_id)
  api (post_presence_batch user_ids) = with_body check_online_batch user_ids
  api post_cleanup = calling cleans_up
  api get_connections = monitoring_connections
  api get_worker_pool = calling reads_pool
  api get_public_key = if is_empty key then (no_key, []) else (public_key key, [])

  -- `strings.TrimPrefix` behind `strings.HasPrefix`.
  unfoldable pub after_prefix : Bytes → Bytes → Option Bytes
  after_prefix [] s = some s
  after_prefix (p ∷ ps) [] = none
  after_prefix (p ∷ ps) (c ∷ s) = let rest = after_prefix ps s in if p == c then rest else none

  abbrev pub is_space : ℕ → Bool
  is_space c = c == 32 || c == 9 || c == 10 || c == 11 || c == 12 || c == 13

  unfoldable pub trim_left : Bytes → Bytes
  trim_left [] = []
  trim_left (c ∷ s) = let rest = trim_left s in if is_space c then rest else c ∷ s

  unfoldable pub trim_right : Bytes → Bytes
  trim_right [] = []
  trim_right (c ∷ s) =
      let rest = trim_right s in if is_empty rest && is_space c then [] else c ∷ rest

  abbrev pub trim_space : Bytes → Bytes
  trim_space s = trim_right (trim_left s)

  -- The loop over all keys.
  unfoldable pub match_any_key : Bytes → List Bytes → Bool
  match_any_key got [] = false
  match_any_key got (k ∷ ks) = let rest = match_any_key got ks in str_eq got k || rest

  -- `requireAPIKey`.
  unfoldable pub require_api_key : List Bytes → Bytes → Route → Response × List Call
  unfolding api after_prefix trim_left trim_right match_any_key
  require_api_key keys authz route = elim (after_prefix (bytes "Bearer ") authz) [
    | none ↦ (unauthorized, [])
    | some rest ↦
        let got = trim_space rest in
        if is_empty got || not (match_any_key got keys) then (unauthorized, []) else api route
  ]
