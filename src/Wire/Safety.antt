-- ===== src/Wire/Safety.antt =====
-- wire/decode.go on input from untrusted clients: no read goes out of range.
use go_pkg.Common.{
  ℕ, ◌+◌, ◌-◌, ◌≤◌, ◌<◌, ◌≡◌, ap, inl, inr, ◌≢◌, bit_or, bit_and, ◌∙◌, false, ◌∷◌, ltb, ◌==◌,
  length, subst, Bytes, is_empty, All, Bool-cases, arith,
}
use go_pkg.Wire.Frame.{Frame, Outcome, ok, err, panic, ◌>>=◌, version}
use go_pkg.Wire.Encode.{encode, too_long, flags_of, encode_body}
use go_pkg.Wire.Decode.{slice, decode_body, decode}
use go_pkg.Wire.RoundTrip.{normal, decode-encode}
use go_pkg.Wire.Readers.{
  IsByte, Reads, ReadsType, index-within, slice-within, read_optional-Reads, read_error-Reads,
  read_type-Reads,
}

-- What a client's frame is known to satisfy once it is decoded.
pub record Decoded (f : Frame) : Type 0 where
  pub accepted : too_long f ≡ false
  pub canonical : normal f ≡ f

abbrev pub Decodes : Bytes → Outcome Frame → Type 0
Decodes s (ok f) = All IsByte s → Decoded f
Decodes s (err e) = Unit
Decodes s panic = ⊥

Reads-bind :
    (s : Bytes) (n : ℕ) (m : Outcome (Bytes × ℕ)) (k : Bytes × ℕ → Outcome Frame)
    → Reads s n m
    → ((t : Bytes) (p : ℕ) → p ≤ length s → (All IsByte s → length t ≤ n) → Decodes s (k (t, p)))
    → Decodes s (m >>= k)
Reads-bind s n (ok (t, p)) k h rest = rest t p h.0 h.1
Reads-bind s n (err e) k h rest = tt
Reads-bind s n panic k h rest = h

ReadsType-bind :
    (s : Bytes) (m : Outcome (Bytes × ℕ × ℕ)) (k : Bytes × ℕ × ℕ → Outcome Frame)
    → ReadsType s m
    → ((t : Bytes) (c p : ℕ)
        → p ≤ length s
        → (All IsByte s → length t ≤ 255)
        → (is_empty t ≡ false → c ≡ 0)
        → Decodes s (k (t, c, p)))
    → Decodes s (m >>= k)
ReadsType-bind s (ok (t, c, p)) k h rest = rest t c p h.0 h.1 h.2
ReadsType-bind s (err e) k h rest = tt
ReadsType-bind s panic k h rest = h

assembled :
    (t i r a e x : Bytes) (c : ℕ)
    → length t ≤ 255
    → (is_empty t ≡ false → c ≡ 0)
    → length i ≤ 255
    → length r ≤ 255
    → length a ≤ 255
    → length e ≤ 65535
    → Decoded (record {
      msg_type = t;
      control_code = c;
      id = i;
      response_to_id = r;
      ack_id = a;
      error = e;
      binary = x;
    })
unfolding too_long normal
assembled t i r a e x c ht hc hi hr ha he = record {
  accepted = ground arith;
  canonical = ground (arith, hc);
}

decode_body-Decodes : (s : Bytes) (flags : ℕ) → 1 < length s → Decodes s (decode_body s flags)
unfolding decode_body
decode_body-Decodes s flags h = ReadsType-bind s _ _ (read_type-Reads s 1 h) λ t c p1 h1 ht hc.
    Reads-bind s 255 _ _ (read_optional-Reads s _ p1 h1) λ i p2 h2 hi.
      Reads-bind s 255 _ _ (read_optional-Reads s _ p2 h2) λ r p3 h3 hr.
        Reads-bind s 255 _ _ (read_optional-Reads s _ p3 h3) λ a p4 h4 ha.
          Reads-bind s 65535 _ _ (read_error-Reads s _ p4 h4) λ e p5 h5 he.
            last t c i r a e p5 h5
              λ x all. assembled t i r a e x c (ht all) hc (hi all) (hr all) (ha all) (he all)
  where
    last :
        (t : Bytes) (c : ℕ) (i r a e : Bytes) (p : ℕ)
        → p ≤ length s
        → ((x : Bytes)
            → All IsByte s
            → Decoded (record {
              msg_type = t;
              control_code = c;
              id = i;
              response_to_id = r;
              ack_id = a;
              error = e;
              binary = x;
            }))
        → Decodes s (
            slice s p (length s) >>= λ x. ok (record {
              msg_type = t;
              control_code = c;
              id = i;
              response_to_id = r;
              ack_id = a;
              error = e;
              binary = x;
            }))
    last t c i r a e p h5 done =
        let (x, tail, len) = slice-within s p (length s - p) (omega arith) in
        let whole : p + (length s - p) ≡ length s = omega arith in
        rw (subst (λ k. slice s p k ≡ ok x) whole tail) (done x)

decode-Decodes : (s : Bytes) → Decodes s (decode s)
unfolding decode
decode-Decodes s = elim (Bool-cases (ltb (length s) 2)) [
  | inl e ↦ rw e tt
  | inr e ↦
      let (b, at_0, small) = index-within s 0 (ground arith) in
      elim (Bool-cases (bit_and b 0x0F == version)) [
        | inl v ↦ rw (e, at_0, v) (decode_body-Decodes s (bit_and b 0xF0) (ground arith))
        | inr v ↦ rw (e, at_0, v) tt
      ]
]

no_panic : (s : Bytes) (r : Outcome Frame) → Decodes s r → r ≢ panic
no_panic s (ok f) h e = cc
no_panic s (err x) h e = cc
no_panic s panic h e = h

-- No input makes the decoder read out of range, whatever its length and contents.
pub decode-ne-panic : (s : Bytes) → decode s ≢ panic
decode-ne-panic s = no_panic s (decode s) (decode-Decodes s)

encode_ok : (f : Frame) → too_long f ≡ false → (s : Bytes) × (encode f ≡ ok s)
unfolding encode
encode_ok f h = (bit_or version (flags_of f) ∷ encode_body f, rw h)

-- A frame that was decoded from a list of bytes can be encoded again, and the new bytes decode to
-- it.
pub decode-encode_again :
    (s : Bytes) (f : Frame)
    → All IsByte s
    → decode s ≡ ok f
    → (s' : Bytes) × (encode f ≡ ok s') × (decode s' ≡ ok f)
decode-encode_again s f all h =
    let d : Decoded f = (subst (Decodes s) h (decode-Decodes s)) all in
    let (s', e) = encode_ok f d.accepted in (s', e, decode-encode f s' e ∙ ap ok d.canonical)
