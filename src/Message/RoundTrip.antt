-- ===== src/Message/RoundTrip.antt =====
-- Messages through the wire and back, and what a client can make of the sentinels.
use go_pkg.Common.{◌≡◌, some, [], Bytes, str_eq_iff, arith}
use go_pkg.Wire.Frame.{Frame, Outcome, ok, err, panic}
use go_pkg.Wire.Encode.{encode}
use go_pkg.Wire.RoundTrip.{normal, decode-encode}
use go_pkg.Message.{
  message_type_heartbeat, message_type_ack, to_frame, msg_type_from_frame, WebsocketResponse,
  WebsocketRequest, or_nil, marshall_response, unmarshall_response, marshall_request,
  unmarshall_request,
}

some_of : (m : Outcome Bytes) {s : Bytes} → or_nil m ≡ some s → m ≡ ok s
some_of (ok s) h = ground arith
some_of (err e) h = cc
some_of panic h = cc

-- The message type survives the wire, be it a sentinel, empty or the application's own.
type-to_frame :
    (mt id resp e ack bin : Bytes)
    → msg_type_from_frame (normal (to_frame mt id resp e ack bin)) ≡ mt
unfolding msg_type_from_frame normal to_frame
type-to_frame mt id resp e ack bin =
    ground (arith, str_eq_iff mt message_type_heartbeat, str_eq_iff mt message_type_ack)

same_fields :
    (mt id resp e ack bin : Bytes)
    → let f = normal (to_frame mt id resp e ack bin) in
      (f.id ≡ id) × (f.response_to_id ≡ resp) × (f.error ≡ e) × (f.ack_id ≡ ack) × (f.binary ≡ bin)
unfolding normal to_frame
same_fields mt id resp e ack bin = ground arith

-- A response that `Marshall` gives bytes for is read back from them, in all fields, by
-- `Unmarshall`.
pub unmarshall-marshall_response :
    (r : WebsocketResponse) (s : Bytes)
    → marshall_response r ≡ some s
    → unmarshall_response s ≡ ok r
unfolding marshall_response unmarshall_response
unmarshall-marshall_response r s h =
    let f = to_frame r.msg_type r.id r.response_to_id r.error r.ack_id r.binary in
    rw (decode-encode f s (some_of (encode f) h)) (
      ground (
        arith,
        type-to_frame r.msg_type r.id r.response_to_id r.error r.ack_id r.binary,
        same_fields r.msg_type r.id r.response_to_id r.error r.ack_id r.binary,
      ))

-- A request that `Marshall` gives bytes for is read back from them, in all fields, by
-- `Unmarshall`.
pub unmarshall-marshall_request :
    (r : WebsocketRequest) (s : Bytes) → marshall_request r ≡ some s → unmarshall_request s ≡ ok r
unfolding marshall_request unmarshall_request
unmarshall-marshall_request r s h =
    let f = to_frame r.msg_type r.id [] [] [] r.binary in
    rw (decode-encode f s (some_of (encode f) h)) (
      ground (
        arith,
        type-to_frame r.msg_type r.id [] [] [] r.binary,
        same_fields r.msg_type r.id [] [] [] r.binary,
      ))

-- The bytes of a frame whose ordinary message type is the heartbeat sentinel are read as a request
-- of the heartbeat's type.
pub sentinel_spoofed :
    (f : Frame) (s : Bytes)
    → f.msg_type ≡ message_type_heartbeat
    → encode f ≡ ok s
    → unmarshall_request s
      ≡ ok (record { id = f.id; msg_type = message_type_heartbeat; binary = f.binary })
unfolding unmarshall_request msg_type_from_frame normal
sentinel_spoofed f s e h = rw (decode-encode f s h) (ground arith)
