-- ===== src/Wire/Encode.antt =====
-- wire/encode.go. A `uint8` conversion keeps its `% 256`, a shift by eight is `/ 256`.
use go_pkg.Common.{
  ℕ, ◌+◌, ◌/◌, ◌%◌, bit_or, Bool, ◌||◌, [], ◌∷◌, ◌++◌, if◌then◌else◌, ltb, length, Bytes, is_empty,
}
use go_pkg.Wire.Frame.{
  Frame, Outcome, ok, err, field_too_long, version, flag_id, flag_response_to_id, flag_ack_id,
  flag_error, max_short_field, max_error_len,
}

-- The two guards at the head of `Encode`.
unfoldable pub too_long : Frame → Bool
too_long f =
    (ltb max_short_field (length f.msg_type)
      || (ltb max_short_field (length f.id)
          || (ltb max_short_field (length f.response_to_id)
              || ltb max_short_field (length f.ack_id))))
    || ltb max_error_len (length f.error)

-- `if s != "" { flags |= flag }`.
abbrev pub set_flag : Bytes → ℕ → ℕ → ℕ
set_flag s flag flags = if is_empty s then flags else bit_or flags flag

abbrev pub flags_of : Frame → ℕ
flags_of f = set_flag f.error flag_error (
    set_flag f.ack_id flag_ack_id
      (set_flag f.response_to_id flag_response_to_id (set_flag f.id flag_id 0)))

unfoldable pub type_field : Frame → Bytes
type_field f =
    if is_empty f.msg_type then 0 ∷ f.control_code ∷ [] else (length f.msg_type % 256) ∷ f.msg_type

unfoldable pub short_field : Bytes → Bytes
short_field s = if is_empty s then [] else (length s % 256) ∷ s

unfoldable pub error_field : Bytes → Bytes
error_field s = if is_empty s then [] else (length s / 256 % 256) ∷ (length s % 256) ∷ s

-- The bytes appended to `buf`, in order.
unfoldable pub encode_body : Frame → Bytes
encode_body f =
    type_field f
    ++ (short_field f.id
        ++ (short_field f.response_to_id
            ++ (short_field f.ack_id ++ (error_field f.error ++ f.binary))))

unfoldable pub encode : Frame → Outcome Bytes
encode f =
    if too_long f then err field_too_long else ok (bit_or version (flags_of f) ∷ encode_body f)

-- The capacity that `Encode` computes for its buffer.
unfoldable pub size : Frame → ℕ
size f =
    (if is_empty f.msg_type then 3 + length f.binary else 2 + length f.msg_type + length f.binary)
    + (if is_empty f.id then 0 else 1 + length f.id)
    + (if is_empty f.response_to_id then 0 else 1 + length f.response_to_id)
    + (if is_empty f.ack_id then 0 else 1 + length f.ack_id)
    + (if is_empty f.error then 0 else 2 + length f.error)
