-- ===== src/ClientMessages/Handler.antt =====
-- 0_main_handler.go. Its rate limiter's `Allow`, the application's `HandleMessage`, the new UUID
-- and the transport's close are outside: their answers are arguments, and what the handler asks of
-- the world around it is the list of effects. A failed effect is only logged.
pub mod Replies
pub mod Totality
use go_pkg.Common.{
  ℕ, ◌+◌, Bool, true, false, not, ◌&&◌, Bytes, bytes, is_empty, str_eq, Option, none, some, List,
  [], ◌∷◌, ◌++◌, if◌then◌else◌,
}
use go_pkg.Common.Table.{Table}
use go_pkg.Domain.{Auth, Conn}
use go_pkg.Wire.Frame.{Outcome, ok, err, panic, WireError, field_too_long, malformed, bad_version}
use go_pkg.Message.{
  WebsocketRequest, WebsocketResponse, unmarshall_request, marshall_response,
  message_type_heartbeat, message_type_ack, message_type_error,
}
use go_pkg.Acks
use go_pkg.Acks.{AckManager, resolve_ack, resolve_remote_ack}
use go_pkg.RateLimit.{Env, Limiter, RateLimiter, get_limiter}
use go_pkg.Connections.{ConnectionMap, get_connection}
use go_pkg.ClientMessages.Window.{should_update, is_duplicate}

pub data Label : Type 0 where
  outcome_ok outcome_invalid_schema outcome_rate_limited outcome_dedup outcome_error : Label

pub data Effect : Type 0 where
  update_heart_beat : Bytes → Bytes → Effect
  update_last_heartbeat : Bytes → Effect
  publish_ack_resolved : Bytes → Bytes → Effect
  handle_message : Bytes → Bytes → Effect
  close_with_reason : Auth → ℕ → Effect

pub record Handler : Type 0 where
  pub hb_throttle : Table ℕ
  pub deduplicator : Table ℕ
  pub ack_manager : AckManager
  pub rate_limiter : RateLimiter
  pub connection_mgr : ConnectionMap

-- What the application's handler returns: an error's text, or a type and a payload.
pub data AppResult : Type 0 where
  app_error : Bytes → AppResult
  app_reply : Bytes → Bytes → AppResult

-- The answers from outside during one message.
pub record World : Type 0 where
  pub now : ℕ
  pub res_id : Bytes
  pub allow : Limiter → Bool
  pub app : Bytes → Bytes → AppResult
  pub closes_with_reason : Conn → Bool
  pub schema_error_text : WireError → Bytes
  pub rate_limit_text : Bytes

pub record Reply : Type 0 where
  pub response : Option WebsocketResponse
  pub label : Label
  pub effects : List Effect

abbrev reply : Option WebsocketResponse → Label → List Effect → Reply
reply response label effects = record { response = response; label = label; effects = effects }

abbrev pub hearbeat_res_msg : WebsocketResponse
hearbeat_res_msg = record {
  id = [];
  response_to_id = [];
  msg_type = message_type_heartbeat;
  error = [];
  binary = [];
  ack_id = [];
}

unfoldable pub close_on_version_mismatch : World → Handler → Auth → List Effect
close_on_version_mismatch w h auth = elim (get_connection h.connection_mgr auth) [
  | none ↦ []
  | some conn ↦ if w.closes_with_reason conn then close_with_reason auth 1002 ∷ [] else []
]

unfoldable pub invalid_message : World → Handler → Auth → WireError → Reply
invalid_message w h auth bad_version =
    reply none outcome_invalid_schema (close_on_version_mismatch w h auth)
invalid_message w h auth e =
    reply
      (some (record {
        id = [];
        response_to_id = [];
        msg_type = message_type_error;
        error = w.schema_error_text e;
        binary = [];
        ack_id = [];
      }))
      outcome_invalid_schema []

-- `handleHeartbeat`.
unfoldable pub handle_heartbeat : World → Handler → Auth → List Effect × Handler
handle_heartbeat w h auth =
    let (session_due, t1) = should_update h.hb_throttle w.now (bytes "s:" ++ auth.instance_id) in
    let (user_due, t2) = should_update t1 w.now (bytes "u:" ++ auth.user_id) in
    (
      (if session_due then update_heart_beat auth.user_id auth.instance_id ∷ [] else [])
          ++ (if user_due then update_last_heartbeat auth.user_id ∷ [] else []),
      record h { hb_throttle = t2 },
    )

-- The branch of an ack. `none` is the panic of a channel closed twice.
unfoldable pub route_remote_ack : AckManager → Bytes → List Effect
route_remote_ack m ack_id = elim ((resolve_remote_ack m ack_id).0) [
  | none ↦ []
  | some source ↦ publish_ack_resolved source ack_id ∷ []
]

unfoldable pub handle_ack : Handler → Bytes → Option (List Effect × Handler)
unfolding route_remote_ack
handle_ack h ack_id =
    if is_empty ack_id then some ([], h) else elim (resolve_ack h.ack_manager ack_id) [
      | none ↦ none
      | some r ↦
          if r.0
          then some ([], record h { ack_manager = r.1 })
          else some (
            route_remote_ack r.1 ack_id,
            record h { ack_manager = (resolve_remote_ack r.1 ack_id).1 },
          )
    ]

-- The application's answer as a response.
unfoldable pub app_response :
    Bytes → WebsocketRequest → AppResult → Option WebsocketResponse × Label
app_response res_id msg (app_error text) = (
  some (record {
    id = res_id;
    response_to_id = msg.id;
    msg_type = msg.msg_type;
    error = text;
    binary = [];
    ack_id = [];
  }),
  outcome_error,
)
app_response res_id msg (app_reply msg_type res) =
    if is_empty msg_type then (none, outcome_ok) else (
      some (record {
        id = res_id;
        response_to_id = msg.id;
        msg_type = msg_type;
        error = [];
        binary = res;
        ack_id = [];
      }),
      outcome_ok,
    )

unfoldable pub call_app : World → Handler → WebsocketRequest → Reply × Handler
unfolding app_response
call_app w h msg =
    let (response, label) = app_response w.res_id msg (w.app msg.msg_type msg.binary) in
    (reply response label (handle_message msg.msg_type msg.binary ∷ []), h)

-- `msg.Id != "" && isDuplicate(msg.Id + auth.InstanceID)`.
unfoldable pub check_duplicate : World → Handler → Auth → WebsocketRequest → Bool × Handler
check_duplicate w h auth msg =
    if is_empty msg.id
    then (false, h)
    else (let (dup, entries) = is_duplicate h.deduplicator w.now (msg.id ++ auth.instance_id) in
        (dup, record h { deduplicator = entries }))

-- The `default` branch, after the limiter let the message through.
unfoldable pub handle_app : World → Handler → Auth → WebsocketRequest → Reply × Handler
unfolding check_duplicate call_app
handle_app w h auth msg =
    let (dup, h') = check_duplicate w h auth msg in
    if dup then (reply none outcome_dedup [], h') else call_app w h' msg

abbrev pub rate_limited : World → WebsocketRequest → WebsocketResponse
rate_limited w msg = record {
  id = w.res_id;
  response_to_id = msg.id;
  msg_type = msg.msg_type;
  error = w.rate_limit_text;
  binary = [];
  ack_id = [];
}

unfoldable pub dispatch :
    World → Handler → Auth → WebsocketRequest → Bool → Option (Reply × Handler)
unfolding handle_heartbeat handle_ack handle_app
dispatch w h auth msg allowed =
    if str_eq msg.msg_type message_type_heartbeat
    then (if allowed
        then (let (effects, h') = handle_heartbeat w h auth in
            some (reply (some hearbeat_res_msg) outcome_ok effects, h'))
        else some (reply none outcome_rate_limited [], h))
    else if str_eq msg.msg_type message_type_ack
    then (if allowed
        then elim (handle_ack h msg.binary) [
          | none ↦ none
          | some r ↦ some (reply none outcome_ok r.0, r.1)
        ]
        else some (reply none outcome_rate_limited [], h))
    else (if allowed
        then some (handle_app w h auth msg)
        else some (reply (some (rate_limited w msg)) outcome_rate_limited [], h))

unfoldable pub handle_message_bytes :
    Env → World → Handler → Auth → Bytes → Option (Reply × Handler)
unfolding invalid_message dispatch
handle_message_bytes c w h auth client_msg = elim (unmarshall_request client_msg) [
  | panic ↦ none
  | err e ↦ some (invalid_message w h auth e, h)
  | ok msg ↦
      let (lim, r) = get_limiter c h.rate_limiter auth in
      dispatch w (record h { rate_limiter = r }) auth msg (w.allow lim)
]

-- The deferred send: a response that does not fit the wire format is dropped.
unfoldable pub sent : Reply → Option Bytes
sent r = elim r.response [ none ↦ none | some response ↦ marshall_response response ]
