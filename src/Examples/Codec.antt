-- ===== src/Examples/Codec.antt =====
-- Frames and messages.
use go_pkg.Common.{
  ℕ, Bytes, bytes, ◌≡◌, ◌≢◌, refl, Option, none, some, List, [], ◌∷◌, All, arith, ◌≤◌, ◌<◌,
}
use go_pkg.Wire.Frame.{Frame, ok, panic}
use go_pkg.Wire.Encode.{encode, size}
use go_pkg.Wire.Decode.{decode}
use go_pkg.Wire.RoundTrip.{decode-encode, normal}
use go_pkg.Wire.Readers.{IsByte}
use go_pkg.Wire.Safety.{decode-ne-panic}
use go_pkg.Message.{
  WebsocketRequest, WebsocketResponse, marshall_response, unmarshall_response, marshall_request,
  unmarshall_request, message_type_heartbeat,
}

abbrev greeting : Frame
greeting = record {
  msg_type = bytes "hi";
  control_code = 0;
  id = 7 ∷ [];
  response_to_id = [];
  ack_id = [];
  error = [];
  binary = 1 ∷ 2 ∷ [];
}

abbrev greeting_bytes : Bytes
greeting_bytes = 17 ∷ 2 ∷ 104 ∷ 105 ∷ 1 ∷ 7 ∷ 1 ∷ 2 ∷ []

greeting_encoded : encode greeting ≡ ok greeting_bytes
unfolding encode go_pkg.Wire.Encode.too_long go_pkg.Wire.Encode.encode_body
    go_pkg.Wire.Encode.type_field go_pkg.Wire.Encode.short_field go_pkg.Wire.Encode.error_field
greeting_encoded = refl

decode-encode_example : decode greeting_bytes ≡ ok (normal greeting)
decode-encode_example = decode-encode greeting greeting_bytes greeting_encoded

decode-ne-panic_example : decode (17 ∷ 200 ∷ 104 ∷ []) ≢ panic
decode-ne-panic_example = decode-ne-panic (17 ∷ 200 ∷ 104 ∷ [])

greeting_IsByte : All IsByte greeting_bytes
greeting_IsByte = (
  omega arith,
  (
    omega arith,
    (omega arith, (omega arith, (omega arith, (omega arith, (omega arith, (omega arith, tt)))))),
  ),
)

abbrev answer : WebsocketResponse
answer = record {
  id = 9 ∷ [];
  response_to_id = 7 ∷ [];
  msg_type = bytes "hi";
  error = [];
  binary = 3 ∷ [];
  ack_id = [];
}

answer_sent : marshall_response answer ≡ some (49 ∷ 2 ∷ 104 ∷ 105 ∷ 1 ∷ 9 ∷ 1 ∷ 7 ∷ 3 ∷ [])
unfolding marshall_response encode go_pkg.Wire.Encode.too_long go_pkg.Message.to_frame
    go_pkg.Common.str_eq go_pkg.Wire.Encode.encode_body go_pkg.Wire.Encode.type_field
    go_pkg.Wire.Encode.short_field go_pkg.Wire.Encode.error_field
answer_sent = refl

abbrev spoof : Frame
spoof = record {
  msg_type = message_type_heartbeat;
  control_code = 0;
  id = [];
  response_to_id = [];
  ack_id = [];
  error = [];
  binary = [];
}

spoof_encoded : encode spoof ≡ ok (1 ∷ 3 ∷ 0 ∷ 104 ∷ 98 ∷ [])
unfolding encode go_pkg.Wire.Encode.too_long go_pkg.Wire.Encode.encode_body
    go_pkg.Wire.Encode.type_field go_pkg.Wire.Encode.short_field go_pkg.Wire.Encode.error_field
spoof_encoded = refl
