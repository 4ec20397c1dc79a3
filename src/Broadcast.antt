-- ===== src/Broadcast.antt =====
-- The messages between containers: core/service/websocket/broadcast, over a publish/subscribe adapter that hands
-- a message to whoever subscribed to its channel. msgpack is the section's `pack` and `unpack`, of the
-- fields without their type, into any type of encodings `B`. The trace that travels along is left out. A nil payload is `none`.
pub mod Transport
use go_pkg.Common.{
  ℕ, Bool, true, false, ◌||◌, Bytes, bytes, str_eq, Option, none, some, is_some, List, [], ◌∷◌,
  ◌++◌, if◌then◌else◌,
}

-- The parameters of the messages, in the order of 1.0.msg_enum.go.
pub data Params : Type 0 where
  send_to_user : Bytes → Bytes → Option Bytes → Params
  send_to_session : Bytes → Bytes → Bytes → Option Bytes → Params
  disconnect_session : Bytes → Bytes → Params
  disconnect_user : Bytes → Params
  send_to_users : List Bytes → Bytes → Option Bytes → Params
  send_to_session_with_ack : Bytes → Bytes → Bytes → Option Bytes → Bytes → Bytes → Params
  send_to_user_with_ack : Bytes → Bytes → Option Bytes → Bytes → Bytes → Params
  ack_resolved : Bytes → Params
  resume_session : Bytes → Bytes → Params
  send_to_anonymous : Bool → List Bytes → Bytes → Option Bytes → Params
  send_to_authenticated : Bytes → Option Bytes → Params
  send_to_all : Bytes → Option Bytes → Params

unfoldable pub msg_type_of : Params → Bytes
msg_type_of (send_to_user u t p) = bytes "SendToUser"
msg_type_of (send_to_session u i t p) = bytes "SendToSession"
msg_type_of (disconnect_session u i) = bytes "DisconnectSession"
msg_type_of (disconnect_user u) = bytes "DisconnectUser"
msg_type_of (send_to_users us t p) = bytes "SendToUsers"
msg_type_of (send_to_session_with_ack u i t p a s) = bytes "SendToSessionWithAck"
msg_type_of (send_to_user_with_ack u t p a s) = bytes "SendToUserWithAck"
msg_type_of (ack_resolved a) = bytes "AckResolved"
msg_type_of (resume_session u i) = bytes "ResumeSession"
msg_type_of (send_to_anonymous all is t p) = bytes "SendToAnonymous"
msg_type_of (send_to_authenticated t p) = bytes "SendToAuthenticated"
msg_type_of (send_to_all t p) = bytes "SendToAll"

-- The bytes of a payload that may be nil.
abbrev pub content : Option Bytes → Bytes
content none = []
content (some payload) = payload

-- What `Marshal` asks of its parameters.
unfoldable pub is_valid_input : Params → Bool
is_valid_input (send_to_user u t p) = is_some p
is_valid_input (send_to_session u i t p) = is_some p
is_valid_input (disconnect_session u i) = true
is_valid_input (disconnect_user u) = true
is_valid_input (send_to_users us t p) = is_some p
is_valid_input (send_to_session_with_ack u i t p a s) = is_some p
is_valid_input (send_to_user_with_ack u t p a s) = is_some p
is_valid_input (ack_resolved a) = true
is_valid_input (resume_session u i) = true
is_valid_input (send_to_anonymous all is t p) = is_some p
is_valid_input (send_to_authenticated t p) = is_some p
is_valid_input (send_to_all t p) = is_some p

-- Whether the creator sends it to all containers, by `sendAllContainers`.
unfoldable pub is_for_all : Params → Bool
is_for_all (send_to_anonymous all is t p) = true
is_for_all (send_to_authenticated t p) = true
is_for_all (send_to_all t p) = true
is_for_all p = false

pub record PubsubMessage (B : Type 0) : Type 0 where
  pub msg_type : Bytes
  pub payload : B

unfoldable pub channel_name : Bytes → Bytes
channel_name container_id = bytes "wb" ++ container_id

abbrev pub broadcast_channel : Bytes
broadcast_channel = bytes "wbbc"

-- The loop over the channels, which ends at the first error.
unfoldable pub publish_each :
    {B : Type 0}
    → (Bytes → Bool)
    → PubsubMessage B
    → List Bytes
    → List (Bytes × PubsubMessage B) × Bool
publish_each publish_ok msg [] = ([], true)
publish_each publish_ok msg (c ∷ cs) =
    let rest = publish_each publish_ok msg cs in
    if publish_ok c then ((channel_name c, msg) ∷ rest.0, rest.1) else ([], false)

-- `Publish`, with what is published and whether it returns nil.
unfoldable pub publish :
    {B : Type 0}
    → (Bytes → Bool)
    → Bool
    → List Bytes
    → PubsubMessage B
    → List (Bytes × PubsubMessage B) × Bool
unfolding publish_each
publish publish_ok send_all target_containers msg =
    if send_all
    then publish_each publish_ok msg (broadcast_channel ∷ [])
    else publish_each publish_ok msg target_containers

abbrev pub one_of : Bytes → List Bytes → Bool
one_of s [] = false
one_of s (x ∷ xs) = str_eq s x || one_of s xs

-- The cases of the two `switch`es.
abbrev pub targeted_types : List Bytes
targeted_types =
    bytes "SendToUser"
    ∷ bytes "SendToSession"
    ∷ bytes "DisconnectSession"
    ∷ bytes "DisconnectUser"
    ∷ bytes "SendToUsers"
    ∷ bytes "SendToSessionWithAck"
    ∷ bytes "SendToUserWithAck"
    ∷ bytes "AckResolved"
    ∷ bytes "ResumeSession"
    ∷ []

abbrev pub types_for_all : List Bytes
types_for_all = bytes "SendToAnonymous" ∷ bytes "SendToAuthenticated" ∷ bytes "SendToAll" ∷ []

module _ {B : Type 0} (pack : Params → B) (unpack : Bytes → B → Option Params) where
  -- `Marshal`.
  unfoldable pub marshal : Params → Option B
  marshal p = if is_valid_input p then some (pack p) else none

  -- The creators: `lo.Must` panics, `none`, where `Marshal` has an error.
  unfoldable pub create : Params → Option (PubsubMessage B)
  unfolding marshal
  create p = elim (marshal p) [
    | none ↦ none
    | some b ↦ some (record { msg_type = msg_type_of p; payload = b })
  ]

  abbrev pub calls : Option Params → List Params
  calls none = []
  calls (some p) = p ∷ []

  -- The calls of the handlers; a message that does not unpack or has another type is logged.
  unfoldable pub handle_msg : PubsubMessage B → List Params
  handle_msg m =
      if one_of m.msg_type targeted_types then calls (unpack m.msg_type m.payload) else []

  unfoldable pub handle_broadcast_msg : PubsubMessage B → List Params
  handle_broadcast_msg m =
      if one_of m.msg_type types_for_all then calls (unpack m.msg_type m.payload) else []

  -- What the subscriptions of `startSubscriber` make of what is published.
  unfoldable pub handled_at : Bytes → List (Bytes × PubsubMessage B) → List Params
  unfolding handle_msg handle_broadcast_msg
  handled_at container_id [] = []
  handled_at container_id ((channel, m) ∷ published) =
      let own = if str_eq channel (channel_name container_id) then handle_msg m else [] in
      let all =
        if str_eq channel (channel_name broadcast_channel) then handle_broadcast_msg m else [] in
      own ++ (all ++ handled_at container_id published)
