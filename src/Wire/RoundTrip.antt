-- ===== src/Wire/RoundTrip.antt =====
-- Encode, then decode: wire/encode.go against wire/decode.go.
use go_pkg.Common.{
  ℕ, suc, ◌+◌, ◌%◌, ◌≤◌, ◌≡◌, refl, bit_or, bit_and, not, [], ◌∷◌, if◌then◌else◌, length,
  length-append, Bytes, is_empty, arith,
}
use go_pkg.Wire.Frame.{Frame, ok, version, flag_id, flag_response_to_id, flag_ack_id, flag_error}
use go_pkg.Wire.Encode.{
  too_long, flags_of, set_flag, type_field, short_field, error_field, encode_body, encode, size,
}
use go_pkg.Wire.Decode.{index, has_flag, decode_body, decode}
use go_pkg.Wire.Cursor.{At, type-At, optional-At, error-At, tail-At}

-- What the wire keeps of a frame: a typed frame's control code is not sent.
unfoldable pub normal : Frame → Frame
normal f = record f { control_code = if is_empty f.msg_type then f.control_code else 0 }

record Within (f : Frame) : Type 0 where
  msg_type : length f.msg_type ≤ 255
  id : length f.id ≤ 255
  response_to_id : length f.response_to_id ≤ 255
  ack_id : length f.ack_id ≤ 255
  error : length f.error ≤ 65535

encode-Within : (f : Frame) {s : Bytes} → encode f ≡ ok s → Within f
unfolding encode too_long
encode-Within f h = ground arith

encode_bytes :
    (f : Frame) {s : Bytes} → encode f ≡ ok s → s ≡ bit_or version (flags_of f) ∷ encode_body f
unfolding encode
encode_bytes f h = ground arith

-- The first byte carries the version, and a flag for each field that is not empty.
abbrev Carries : ℕ → Bytes → Bytes → Bytes → Bytes → Type 0
Carries b i r a e =
    (bit_and b 0x0F ≡ version)
    × (has_flag (bit_and b 0xF0) flag_id ≡ not (is_empty i))
    × (has_flag (bit_and b 0xF0) flag_response_to_id ≡ not (is_empty r))
    × (has_flag (bit_and b 0xF0) flag_ack_id ≡ not (is_empty a))
    × (has_flag (bit_and b 0xF0) flag_error ≡ not (is_empty e))

flags-Carries :
    (i r a e : Bytes)
    → Carries
        (bit_or version (
          set_flag e flag_error
            (set_flag a flag_ack_id (set_flag r flag_response_to_id (set_flag i flag_id 0)))))
        i
        r
        a
        e
unfolding has_flag
flags-Carries i r a e = ground arith

-- The fields of the body come back one after the other.
body-At :
    (f : Frame) (s : Bytes) (flags : ℕ)
    → Within f
    → At s 1 (encode_body f)
    → has_flag flags flag_id ≡ not (is_empty f.id)
    → has_flag flags flag_response_to_id ≡ not (is_empty f.response_to_id)
    → has_flag flags flag_ack_id ≡ not (is_empty f.ack_id)
    → has_flag flags flag_error ≡ not (is_empty f.error)
    → decode_body s flags ≡ ok (normal f)
unfolding decode_body encode_body type_field normal
body-At f s flags w h hi hr ha he =
    let (p1, e1, h1) = type-At s 1 f.control_code f.msg_type _ w.msg_type h in
    let (p2, e2, h2) = optional-At s p1 f.id _ w.id h1 in
    let (p3, e3, h3) = optional-At s p2 f.response_to_id _ w.response_to_id h2 in
    let (p4, e4, h4) = optional-At s p3 f.ack_id _ w.ack_id h3 in
    let (p5, e5, h5) = error-At s p4 f.error _ w.error h4 in
    rw (e1, hi, e2, hr, e3, ha, e4, he, e5, tail-At s p5 f.binary h5)

body_nonempty : (f : Frame) → 1 ≤ length (encode_body f)
unfolding encode_body type_field
body_nonempty f = ground (
  arith,
  length-append (0 ∷ f.control_code ∷ []),
  length-append ((length f.msg_type % 256) ∷ f.msg_type),
)

decode-cons :
    (f : Frame) (b : ℕ)
    → Within f
    → Carries b f.id f.response_to_id f.ack_id f.error
    → decode (b ∷ encode_body f) ≡ ok (normal f)
unfolding decode index
decode-cons f b w (v, i, r, a, e) =
    let h : At (b ∷ encode_body f) 1 (encode_body f) = record {
      within = omega arith;
      ahead = refl;
    } in
    ground (arith, body_nonempty f, body-At f (b ∷ encode_body f) (bit_and b 0xF0) w h i r a e)

-- Whatever bytes `Encode` gives for a frame, `Decode` reads the frame back from them, but for the
-- control code of a frame with a message type, which is not sent.
pub decode-encode : (f : Frame) (s : Bytes) → encode f ≡ ok s → decode s ≡ ok (normal f)
decode-encode f s h =
    rw (encode_bytes f h)
      (decode-cons f _ (encode-Within f h) (flags-Carries f.id f.response_to_id f.ack_id f.error))

length-short_field : (s : Bytes) → length (short_field s) ≡ (if is_empty s then 0 else 1 + length s)
unfolding short_field
length-short_field s = ground arith

length-error_field : (s : Bytes) → length (error_field s) ≡ (if is_empty s then 0 else 2 + length s)
unfolding error_field
length-error_field s = ground arith

length-type_field :
    (f : Frame) → length (type_field f) ≡ (if is_empty f.msg_type then 2 else 1 + length f.msg_type)
unfolding type_field
length-type_field f = ground arith

length-encode_body : (f : Frame) → suc (length (encode_body f)) ≡ size f
unfolding encode_body size
length-encode_body f =
    rw
      (
        length-append (type_field f),
        length-append (short_field f.id),
        length-append (short_field f.response_to_id),
        length-append (short_field f.ack_id),
        length-append (error_field f.error),
        length-type_field f,
        length-short_field f.id,
        length-short_field f.response_to_id,
        length-short_field f.ack_id,
        length-error_field f.error,
      )
      (ground arith)

-- The buffer whose capacity `encode` computes is filled exactly.
pub length-encode : (f : Frame) (s : Bytes) → encode f ≡ ok s → length s ≡ size f
length-encode f s h = rw (encode_bytes f h) (length-encode_body f)
