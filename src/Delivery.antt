-- ===== src/Delivery.antt =====
-- The messages of other containers and of this one to the sessions held here:
-- core/service/websocket/broadcast-msg-handler. `Send` and `Close` of a connection, the new UUID
-- and the repository are outside: whether a send succeeds is an argument, and what a handler asks
-- for is the list of its effects, in their order.
pub mod Saving
pub mod Reach
use go_pkg.Common.{
  ℕ, zero, suc, ◌+◌, ◌-◌, ◌*◌, min, Bool, true, false, Bytes, Option, none, some, List, [], ◌∷◌,
  ◌++◌, map, if◌then◌else◌,
}
use go_pkg.Domain.{
  Auth, Conn, Status, connected, temp_disconnected, transferring, user_websocket_auth,
  anonymous_user_websocket_auth,
}
use go_pkg.Message.{WebsocketResponse, marshall_response}
use go_pkg.Connections.{
  ConnectionMap, get_connection, get_all_user_conn, get_all_connections, get_all_authenticated_conn,
  get_all_anonymous_conn,
}
use go_pkg.MsgHub.{Hub, deregister, is_registered, get_sessions}
use go_pkg.Acks.{AckManager, resolve_ack, register_remote_ack}

-- Marshalled bytes, or `nil`.
abbrev pub Payload : Type 0
Payload = Option Bytes

-- `submits_save` is the task `saveMessageHub(ctx, auth, payload, 0)` of the worker pool.
pub data Effect : Type 0 where
  sends : Conn → Payload → Effect
  submits_save : Auth → Payload → Effect
  saves : Bytes → Bytes → Payload → Effect
  closes : Conn → Effect

-- `WrapperBytesToWebsocketResponse`.
unfoldable pub wrap_bytes : Bytes → Bytes → Bytes → Bytes → Payload
wrap_bytes id response_to_id msg_type payload = marshall_response (record {
  id = id;
  response_to_id = response_to_id;
  msg_type = msg_type;
  error = [];
  binary = payload;
  ack_id = [];
})

unfoldable pub send_or_save_message_hub : (Conn → Bool) → Conn → Payload → List Effect
send_or_save_message_hub send_ok conn payload =
    sends conn payload ∷ (if send_ok conn then [] else submits_save conn.auth payload ∷ [])

-- The loop of a handler over connections.
unfoldable pub send_each : (Conn → Bool) → List Conn → Payload → List Effect
send_each send_ok [] payload = []
send_each send_ok (conn ∷ conns) payload =
    send_or_save_message_hub send_ok conn payload ++ send_each send_ok conns payload

-- The loop over the temporarily disconnected sessions of a user.
unfoldable pub save_each : Bytes → List Bytes → Payload → List Effect
save_each user_id [] payload = []
save_each user_id (instance_id ∷ instance_ids) payload =
    saves user_id instance_id payload ∷ save_each user_id instance_ids payload

unfoldable pub send_to_user :
    ConnectionMap → Hub → (Conn → Bool) → Bytes → Bytes → Bytes → Bytes → List Effect
send_to_user m hub send_ok id user_id msg_type payload =
    let ws_res = wrap_bytes id [] msg_type payload in
    send_each send_ok (get_all_user_conn m user_id) ws_res
    ++ save_each user_id (get_sessions hub user_id) ws_res

unfoldable pub send_to_users :
    ConnectionMap → (Conn → Bool) → Bytes → List Bytes → Bytes → Bytes → List Effect
send_to_users m send_ok id [] msg_type payload = []
send_to_users m send_ok id (user_id ∷ user_ids) msg_type payload =
    send_each send_ok (get_all_user_conn m user_id) (wrap_bytes id [] msg_type payload)
    ++ send_to_users m send_ok id user_ids msg_type payload

-- `none` is the panic of the factory of the session's auth.
unfoldable pub send_to_session :
    ConnectionMap
    → Hub
    → (Conn → Bool)
    → Bytes
    → Bytes
    → Bytes
    → Bytes
    → Bytes
    → Option (List Effect)
send_to_session m hub send_ok id user_id instance_id msg_type payload =
    let ws_res = wrap_bytes id [] msg_type payload in
    elim (user_websocket_auth user_id instance_id) [
      | none ↦ none
      | some auth ↦ elim (get_connection m auth) [
        | none ↦ some (
            if is_registered hub user_id instance_id
            then saves user_id instance_id ws_res ∷ []
            else [])
        | some conn ↦ some (send_or_save_message_hub send_ok conn ws_res)
      ]
    ]

unfoldable pub with_ack : Bytes → Bytes → Bytes → Bytes → Payload
with_ack id msg_type payload ack_id = marshall_response (record {
  id = id;
  response_to_id = [];
  msg_type = msg_type;
  error = [];
  binary = payload;
  ack_id = ack_id;
})

-- What `SendToSessionWithAck` does once the session's auth is made.
unfoldable pub send_to_conn_with_ack :
    ConnectionMap
    → AckManager
    → (Conn → Bool)
    → Auth
    → Payload
    → Bytes
    → Bytes
    → List Effect × AckManager
send_to_conn_with_ack m acks send_ok auth ws_res ack_id source = elim (get_connection m auth) [
  | none ↦ ([], acks)
  | some conn ↦
      (send_or_save_message_hub send_ok conn ws_res, register_remote_ack acks ack_id source)
]

unfoldable pub send_to_session_with_ack :
    ConnectionMap
    → AckManager
    → (Conn → Bool)
    → Bytes
    → Bytes
    → Bytes
    → Bytes
    → Bytes
    → Bytes
    → Bytes
    → Option (List Effect × AckManager)
unfolding send_to_conn_with_ack
send_to_session_with_ack m acks send_ok id user_id instance_id msg_type payload ack_id source =
    elim (user_websocket_auth user_id instance_id) [
      | none ↦ none
      | some auth ↦ some (
          send_to_conn_with_ack m acks send_ok auth (with_ack id msg_type payload ack_id) ack_id
            source)
    ]

unfoldable pub send_to_user_with_ack :
    ConnectionMap
    → AckManager
    → (Conn → Bool)
    → Bytes
    → Bytes
    → Bytes
    → Bytes
    → Bytes
    → Bytes
    → List Effect × AckManager
send_to_user_with_ack m acks send_ok id user_id msg_type payload ack_id source =
    elim (get_all_user_conn m user_id) [
      | [] ↦ ([], acks)
      | conn ∷ conns ↦ (
        send_each send_ok (conn ∷ conns) (with_ack id msg_type payload ack_id),
        register_remote_ack acks ack_id source,
      )
    ]

-- A loop that sends and forgets.
unfoldable pub send_only : List Conn → Payload → List Effect
send_only [] payload = []
send_only (conn ∷ conns) payload = sends conn payload ∷ send_only conns payload

unfoldable pub send_to_all : ConnectionMap → Bytes → Bytes → Bytes → List Effect
send_to_all m id msg_type payload =
    send_only (get_all_connections m) (wrap_bytes id [] msg_type payload)

unfoldable pub send_to_authenticated :
    ConnectionMap → (Conn → Bool) → Bytes → Bytes → Bytes → List Effect
send_to_authenticated m send_ok id msg_type payload =
    send_each send_ok (get_all_authenticated_conn m) (wrap_bytes id [] msg_type payload)

-- The loop over instance IDs. An empty one is a panic, after what was sent before it.
unfoldable pub send_to_instances : ConnectionMap → List Bytes → Payload → List Effect × Bool
send_to_instances m [] ws_res = ([], false)
send_to_instances m (instance_id ∷ instance_ids) ws_res =
    let rest = send_to_instances m instance_ids ws_res in
    elim (anonymous_user_websocket_auth instance_id) [
      | none ↦ ([], true)
      | some auth ↦ elim (get_connection m auth) [
        | none ↦ rest
        | some conn ↦ (sends conn ws_res ∷ rest.0, rest.1)
      ]
    ]

unfoldable pub send_to_anonymous :
    ConnectionMap → Bytes → Bytes → Bytes → Bool → List Bytes → List Effect × Bool
send_to_anonymous m id msg_type payload is_send_all instance_ids =
    let ws_res = wrap_bytes id [] msg_type payload in
    if is_send_all
    then (send_only (get_all_anonymous_conn m) ws_res, false)
    else send_to_instances m instance_ids ws_res

unfoldable pub close_conn : Option Conn → List Effect
close_conn none = []
close_conn (some conn) = closes conn ∷ []

unfoldable pub disconnect_session : ConnectionMap → Bytes → Bytes → Option (List Effect)
unfolding close_conn
disconnect_session m user_id instance_id = elim (user_websocket_auth user_id instance_id) [
  | none ↦ none
  | some auth ↦ some (close_conn (get_connection m auth))
]

unfoldable pub disconnect_user : ConnectionMap → Bytes → List Effect
disconnect_user m user_id = map closes (get_all_user_conn m user_id)

unfoldable pub resume_session : Hub → Bytes → Bytes → Hub
resume_session hub user_id instance_id = deregister hub user_id instance_id

unfoldable pub ack_resolved : AckManager → Bytes → Option (Bool × AckManager)
ack_resolved acks ack_id = resolve_ack acks ack_id
