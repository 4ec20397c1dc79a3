-- ===== src/Message.antt =====
-- core/service/websocket/0.message_type.go: message types, and requests and responses as frames.
pub mod RoundTrip
use go_pkg.Common.{
  ℕ, ◌≡◌, Bool, true, false, Option, none, some, List, [], ◌∷◌, if◌then◌else◌, ◌==◌, Bytes, bytes,
  str_eq, is_empty,
}
use go_pkg.Wire.Frame.{Frame, Outcome, ok, err, panic, ◌>>=◌, control_heartbeat, control_ack}
use go_pkg.Wire.Encode.{encode}
use go_pkg.Wire.Decode.{decode}

-- The sentinels start with a zero byte.
abbrev pub message_type_heartbeat : Bytes
message_type_heartbeat = 0 ∷ bytes "hb"

abbrev pub message_type_ack : Bytes
message_type_ack = 0 ∷ bytes "ack"

abbrev pub message_type_error : Bytes
message_type_error = bytes "error"

unfoldable pub control_code_for : Bytes → Option ℕ
control_code_for mt =
    if str_eq mt message_type_heartbeat
    then some control_heartbeat
    else if str_eq mt message_type_ack
    then some control_ack
    else none

unfoldable pub message_type_for : ℕ → Bytes
message_type_for code =
    if code == control_heartbeat
    then message_type_heartbeat
    else if code == control_ack
    then message_type_ack
    else []

unfoldable pub to_frame : Bytes → Bytes → Bytes → Bytes → Bytes → Bytes → Frame
unfolding control_code_for
to_frame msg_type id response_to_id err_str ack_id binary =
    let f : Frame = record {
      msg_type = [];
      control_code = 0;
      id = id;
      response_to_id = response_to_id;
      ack_id = ack_id;
      error = err_str;
      binary = binary;
    } in
    elim (control_code_for msg_type) [
      | some code ↦ record f { control_code = code }
      | none ↦ record f { msg_type = msg_type }
    ]

unfoldable pub msg_type_from_frame : Frame → Bytes
unfolding message_type_for
msg_type_from_frame f = if is_empty f.msg_type then message_type_for f.control_code else f.msg_type

pub record WebsocketResponse : Type 0 where
  pub id : Bytes
  pub response_to_id : Bytes
  pub msg_type : Bytes
  pub error : Bytes
  pub binary : Bytes
  pub ack_id : Bytes

pub record WebsocketRequest : Type 0 where
  pub id : Bytes
  pub msg_type : Bytes
  pub binary : Bytes

-- `nil` where `Encode` fails.
abbrev pub or_nil : Outcome Bytes → Option Bytes
or_nil (ok s) = some s
or_nil (err e) = none
or_nil panic = none

unfoldable pub marshall_response : WebsocketResponse → Option Bytes
marshall_response r =
    or_nil (encode (to_frame r.msg_type r.id r.response_to_id r.error r.ack_id r.binary))

unfoldable pub unmarshall_response : Bytes → Outcome WebsocketResponse
unmarshall_response s = do
  f ← decode s
  ok (record {
    id = f.id;
    response_to_id = f.response_to_id;
    msg_type = msg_type_from_frame f;
    error = f.error;
    binary = f.binary;
    ack_id = f.ack_id;
  })

unfoldable pub marshall_request : WebsocketRequest → Option Bytes
marshall_request r = or_nil (encode (to_frame r.msg_type r.id [] [] [] r.binary))

unfoldable pub unmarshall_request : Bytes → Outcome WebsocketRequest
unmarshall_request s = do
  f ← decode s
  ok (record { id = f.id; msg_type = msg_type_from_frame f; binary = f.binary })
