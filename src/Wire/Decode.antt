-- ===== src/Wire/Decode.antt =====
-- wire/decode.go. The cursor `pos` is passed on, and every index and slice may panic.
use go_pkg.Common.{
  ℕ, ◌+◌, ◌-◌, ◌*◌, bit_and, bit_or, Bool, not, none, some, [], if◌then◌else◌, ltb, leb, ◌==◌,
  length, get_elem?, take, drop, Bytes,
}
use go_pkg.Wire.Frame.{
  Frame, Outcome, ok, err, ◌>>=◌, or_panic, malformed, bad_version, version, flag_id,
  flag_response_to_id, flag_ack_id, flag_error,
}

-- `data[i]`.
unfoldable pub index : Bytes → ℕ → Outcome ℕ
index s i = or_panic (get_elem? s i)

-- `data[lo:hi]`.
unfoldable pub slice : Bytes → ℕ → ℕ → Outcome Bytes
slice s lo hi = or_panic (
    if leb lo hi
    then if leb hi (length s) then some (take (hi - lo) (drop lo s)) else none
    else none)

unfoldable pub has_flag : ℕ → ℕ → Bool
has_flag flags flag = not (bit_and flags flag == 0)

-- The message type or, at length 0, the control code.
unfoldable pub read_type : Bytes → ℕ → Outcome (Bytes × ℕ × ℕ)
read_type s pos = do
  n ← index s pos
  let start = pos + 1
  if n == 0
      then (if leb (length s) start
          then err malformed
          else index s start >>= λ c. ok ([], c, start + 1))
      else (if ltb (length s) (start + n)
          then err malformed
          else slice s start (start + n) >>= λ t. ok (t, 0, start + n))

unfoldable pub read_short : Bytes → ℕ → Outcome (Bytes × ℕ)
read_short s pos =
    if leb (length s) pos
    then err malformed
    else index s pos >>= λ n.
        (if ltb (length s) (pos + 1 + n)
          then err malformed
          else slice s (pos + 1) (pos + 1 + n) >>= λ t. ok (t, pos + 1 + n))

-- `if flags&flag != 0 { s, ok := readShort(); ... }`.
unfoldable pub read_optional : Bytes → Bool → ℕ → Outcome (Bytes × ℕ)
read_optional s present pos = if present then read_short s pos else ok ([], pos)

unfoldable pub read_error : Bytes → Bool → ℕ → Outcome (Bytes × ℕ)
read_error s present pos =
    if present
    then (if ltb (length s) (pos + 2)
        then err malformed
        else index s pos >>= λ hi. index s (pos + 1) >>= λ lo.
            let n = bit_or (hi * 256) lo in
            if ltb (length s) (pos + 2 + n)
            then err malformed
            else slice s (pos + 2) (pos + 2 + n) >>= λ t. ok (t, pos + 2 + n))
    else ok ([], pos)

-- The fields after the first byte, whose flags are given.
unfoldable pub decode_body : Bytes → ℕ → Outcome Frame
decode_body s flags = do
  (msg_type, control_code, p1) ← read_type s 1
  (id, p2) ← read_optional s (has_flag flags flag_id) p1
  (response_to_id, p3) ← read_optional s (has_flag flags flag_response_to_id) p2
  (ack_id, p4) ← read_optional s (has_flag flags flag_ack_id) p3
  (error, p5) ← read_error s (has_flag flags flag_error) p4
  binary ← slice s p5 (length s)
  ok (record {
    msg_type = msg_type;
    control_code = control_code;
    id = id;
    response_to_id = response_to_id;
    ack_id = ack_id;
    error = error;
    binary = binary;
  })

unfoldable pub decode : Bytes → Outcome Frame
decode s =
    if ltb (length s) 2
    then err malformed
    else index s 0 >>= λ b.
        if bit_and b 0x0F == version then decode_body s (bit_and b 0xF0) else err bad_version
