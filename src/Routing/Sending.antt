-- ===== src/Routing/Sending.antt =====
-- Messages that wait for an ack: core/service/websocket/mediator/service/1.send_with_ack.go, up to
-- the wait. The ack's random part, the repository's answer, the UUID and the outcomes of sends and
-- of saves are arguments.
pub mod Cleanup
use go_pkg.Common.{ℕ, Bool, true, false, Bytes, Option, none, some, List, [], ◌∷◌, if◌then◌else◌}
use go_pkg.Domain.{Auth, Conn}
use go_pkg.Connections.{ConnectionMap, get_connection, get_all_user_conn}
use go_pkg.Acks
use go_pkg.Acks.{AckManager, create_ack, resolve_ack}
use go_pkg.Broadcast.{Params, is_valid_input, content}
use go_pkg.Delivery
use go_pkg.Delivery.{Effect, Payload, wrap_bytes, send_to_session_with_ack, send_to_user_with_ack}
use go_pkg.Routing.{
  QueryResult, Routes, InstanceResult, SessionAction, locally, callback_notfound, transferring,
  target_container, SessionResult, acts, failed, panicked, find_user_conn, find_session_conn,
  is_nil,
}

-- Where the call stands before `WaitForAck`: returned with or without an error, waiting on a
-- channel, or in a panic, which leaves the ack.
pub data Stage : Type 0 where
  returns_error returns_false : AckManager → Stage
  waits : Bytes → ℕ → AckManager → Stage
  panics : Stage

pub record Sent : Type 0 where
  pub stage : Stage
  pub effects : List Effect
  pub published : List Bytes

pub record Message : Type 0 where
  pub msg_type : Bytes
  pub payload : Option Bytes

-- What the packages outside answer.
pub record World : Type 0 where
  pub container_id : Bytes
  pub nano_id : Bytes
  pub id : Bytes
  pub send_ok : Conn → Bool
  pub save_ok : Bool

abbrev nothing : Stage → Sent
nothing stage = record { stage = stage; effects = []; published = [] }

-- `m.ackManager.ResolveAck(ackID)` and the return.
unfoldable pub give_up : Bool → Bytes → AckManager → Stage
give_up with_error ack_id acks = elim (resolve_ack acks ack_id) [
  | none ↦ panics
  | some r ↦ if with_error then returns_error r.1 else returns_false r.1
]

-- `localAction`: the session's connection is looked up again, here and in the handler.
unfoldable pub session_local :
    ConnectionMap → World → Auth → Message → Bytes → ℕ → AckManager → Sent
unfolding give_up
session_local m w auth msg ack_id ch acks =
    let sent =
      send_to_session_with_ack m acks w.send_ok w.id auth.user_id auth.instance_id msg.msg_type
        (content msg.payload) ack_id w.container_id in
    elim sent [
      | none ↦ nothing panics
      | some r ↦ elim (get_connection m auth) [
        | none ↦ nothing (give_up false ack_id acks)
        | some conn ↦ record { stage = waits ack_id ch r.1; effects = r.0; published = [] }
      ]
    ]

-- The action that the search of the session chose, and what follows it. The creator of the message for
-- another container panics on a nil payload.
unfoldable pub session_acts :
    ConnectionMap → World → Auth → Message → Bytes → ℕ → AckManager → SessionAction → Sent
unfolding is_valid_input give_up session_local
session_acts m w auth msg ack_id ch acks locally = session_local m w auth msg ack_id ch acks
session_acts m w auth msg ack_id ch acks callback_notfound = nothing (give_up false ack_id acks)
session_acts m w auth msg ack_id ch acks transferring = record {
  stage = if w.save_ok then give_up false ack_id acks else give_up true ack_id acks;
  effects =
      Delivery.saves auth.user_id auth.instance_id
        (wrap_bytes w.id [] msg.msg_type (content msg.payload))
      ∷ [];
  published = [];
}
session_acts m w auth msg ack_id ch acks (target_container c) =
    let message =
      Params.send_to_session_with_ack auth.user_id auth.instance_id msg.msg_type msg.payload ack_id
        w.container_id in
    if is_valid_input message
    then record { stage = waits ack_id ch acks; effects = []; published = c ∷ [] }
    else nothing panics

-- `SendToSessionWithAck`.
unfoldable pub session_with_ack :
    ConnectionMap → AckManager → World → Auth → Message → InstanceResult → Sent
unfolding give_up session_acts
session_with_ack m acks w auth msg row =
    let (ack_id, ch, acks') = create_ack acks w.nano_id in
    elim (find_session_conn m auth.user_id auth.instance_id true row) [
      | panicked ↦ nothing panics
      | failed ↦ nothing (give_up true ack_id acks')
      | acts action ↦ session_acts m w auth msg ack_id ch acks' action
    ]

-- Both actions of a user's search: `found` is set by a local connection or by a container.
unfoldable pub user_acts :
    ConnectionMap → World → Bytes → Message → Bytes → ℕ → AckManager → Routes → Sent
unfolding is_valid_input give_up
user_acts m w user_id msg ack_id ch acks routes =
    let r =
      if routes.local_action
      then send_to_user_with_ack m acks w.send_ok w.id user_id msg.msg_type (content msg.payload)
          ack_id w.container_id
      else ([], acks) in
    let here = if routes.local_action then is_nil (get_all_user_conn m user_id) else true in
    let message =
      Params.send_to_user_with_ack user_id msg.msg_type msg.payload ack_id w.container_id in
    let ended = if here then give_up false ack_id r.1 else waits ack_id ch r.1 in
    let asked : Sent =
      if is_valid_input message
      then record { stage = waits ack_id ch r.1; effects = r.0; published = routes.containers }
      else record { stage = panics; effects = r.0; published = [] } in
    if is_nil routes.containers
    then record { stage = ended; effects = r.0; published = [] }
    else asked

-- `SendToUserWithAck`.
unfoldable pub user_with_ack :
    ConnectionMap → AckManager → World → Bytes → Message → QueryResult → Sent
unfolding give_up user_acts
user_with_ack m acks w user_id msg query =
    let (ack_id, ch, acks') = create_ack acks w.nano_id in
    elim (find_user_conn m w.container_id user_id query) [
      | none ↦ nothing (give_up true ack_id acks')
      | some routes ↦ user_acts m w user_id msg ack_id ch acks' routes
    ]
