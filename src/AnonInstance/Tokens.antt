-- ===== src/AnonInstance/Tokens.antt =====
-- Which IDs are accepted: those that were signed, while they are young.
use go_pkg.Common.{
  bytes, ◌⊎◌, ◌↔◌, ℕ, zero, suc, ◌+◌, ◌/◌, ◌%◌, ◌<◌, ◌≤◌, subst, Option-cases, none, Bool, true,
  false, ◌||◌, ◌≡◌, refl, ◌∙◌, Bytes, is_empty, str_eq_iff, str_eq_refl, some, [], ◌∷◌, ◌++◌, leb,
  ◌==◌, Bool-cases, inl, inr, arith,
}
use go_pkg.AnonInstance.{
  Signed, unix_to_internal, mint_or_read_anonymous_instance_id, read_anonymous_instance_id, colon,
  dot, max_age, cut, format_from, format_int, parse_digits, int64_bound, in_range, unsigned,
  parse_int, is_young, stamp_is_young, sign, verify_parts, verify, payload_of,
}

-- Whether a byte is in a text.
unfoldable pub has_byte : ℕ → Bytes → Bool
has_byte b [] = false
has_byte b (c ∷ s) = c == b || has_byte b s

cut_sound :
    (b : ℕ) (s : Bytes)
    → (cut b s).2 ≡ true
    → (s ≡ (cut b s).0 ++ b ∷ (cut b s).1) × (has_byte b (cut b s).0 ≡ false)
unfolding cut has_byte
cut_sound b [] h = cc
cut_sound b (c ∷ s) h = elim (Bool-cases (c == b)) [
  | inl here ↦ ground (arith, here)
  | inr on ↦ ground (arith, on, cut_sound b s)
]

cut-append : (b : ℕ) (p s : Bytes) → has_byte b p ≡ false → cut b (p ++ b ∷ s) ≡ (p, s, true)
unfolding cut has_byte
cut-append b [] s h = ground arith
cut-append b (c ∷ p) s h = ground (arith, cut-append b p s)

has_byte-append : (b : ℕ) (s t : Bytes) → has_byte b (s ++ t) ≡ (has_byte b s || has_byte b t)
unfolding has_byte
has_byte-append b [] t = refl
has_byte-append b (c ∷ s) t = ground (arith, has_byte-append b s t)

has_byte-format_from :
    (b fuel n : ℕ) (digits : Bytes)
    → (b < 48) ⊎ (57 < b)
    → has_byte b digits ≡ false
    → has_byte b (format_from fuel n digits) ≡ false
unfolding has_byte format_from
has_byte-format_from b zero n digits out h = h
has_byte-format_from b (suc fuel) n digits out h =
    ground (arith, out, has_byte-format_from b fuel (n / 10) ((48 + n % 10) ∷ digits) out)

pub parse_digits-format_from :
    (fuel n : ℕ) (digits : Bytes)
    → n < fuel
    → parse_digits 0 (format_from fuel n digits) ≡ parse_digits n digits
unfolding format_from parse_digits
parse_digits-format_from zero n digits h = absurd (omega arith)
parse_digits-format_from (suc fuel) n digits h = elim (Bool-cases (n / 10 == 0)) [
  | inl last ↦ ground (arith, last)
  | inr more ↦ ground (arith, more, parse_digits-format_from fuel (n / 10) ((48 + n % 10) ∷ digits))
]

is_empty-format_from :
    (fuel n : ℕ) (digits : Bytes)
    → is_empty digits ≡ false
    → is_empty (format_from fuel n digits) ≡ false
unfolding format_from
is_empty-format_from zero n digits h = h
is_empty-format_from (suc fuel) n digits h =
    ground (arith, is_empty-format_from fuel (n / 10) ((48 + n % 10) ∷ digits))

pub is_empty-format_int : (n : ℕ) → is_empty (format_int n) ≡ false
unfolding format_int format_from
is_empty-format_int n = ground (arith, is_empty-format_from n (n / 10) ((48 + n % 10) ∷ []) refl)

pub no_byte_in_format : (b n : ℕ) → (b < 48) ⊎ (57 < b) → has_byte b (format_int n) ≡ false
unfolding format_int has_byte
no_byte_in_format b n out = has_byte-format_from b (suc n) n [] out refl

parse_int-unsigned :
    (s : Bytes) → has_byte b'-' s ≡ false → has_byte b'+' s ≡ false → parse_int s ≡ unsigned false s
unfolding parse_int has_byte unsigned
parse_int-unsigned [] h k = refl
parse_int-unsigned (c ∷ s) h k = ground (arith, h, k)

-- What is printed of a time is read back.
parse_int-format_int :
    (n : ℕ)
    → n < int64_bound
    → parse_int (format_int n) ≡ some (record { negative = false; amount = n })
unfolding unsigned in_range parse_digits format_int
parse_int-format_int n small =
    parse_int-unsigned (format_int n) (no_byte_in_format b'-' n (omega arith))
      (no_byte_in_format b'+' n (omega arith))
    ∙ ground
        (arith, is_empty-format_int n, parse_digits-format_from (suc n) n [] (omega arith), small)

is_empty-append_colon : (s t : Bytes) → is_empty (s ++ colon ∷ t) ≡ false
is_empty-append_colon [] t = refl
is_empty-append_colon (c ∷ s) t = refl

is_empty-append : (s t : Bytes) → is_empty s ≡ false → is_empty (s ++ t) ≡ false
is_empty-append [] t h = cc
is_empty-append (c ∷ s) t h = refl

-- A stamp that is a time at most six hours ago, or in the future but not where `time.Unix` wraps around.
abbrev pub IsRecent : ℕ → Signed → Type 0
IsRecent now t =
    ((t.negative ≡ true) × (now + t.amount ≤ max_age))
    ⊎ ((t.negative ≡ false)
        × (t.amount + unix_to_internal < int64_bound)
        × (now ≤ t.amount + max_age))

none_is_old : (now : ℕ) → is_young now none ≡ true → ⊥
unfolding is_young
none_is_old now h = cc

is_young_iff : (now : ℕ) (t : Signed) → (is_young now (some t) ≡ true) ↔ IsRecent now t
unfolding is_young
is_young_iff now t = elim (Bool-cases t.negative) [
  | inl past ↦ (
    λ h. inl (past, ground (arith, h, past)),
    λ h. elim h [ inl k ↦ ground (arith, past, k.1) | inr k ↦ absurd (ground (arith, past, k.0)) ],
  )
  | inr later ↦ (
    λ h. inr (later, ground (arith, h, later), ground (arith, h, later)),
    λ h. elim h [
      | inl k ↦ absurd (ground (arith, later, k.0))
      | inr k ↦ ground (arith, later, k.1, k.2)
    ],
  )
]

-- What is accepted as a payload: an ID with no colon, a colon, and the number of a recent time.
abbrev pub IsStamped : ℕ → Bytes → Type 0
IsStamped now payload =
    (id : Bytes) × (stamp : Bytes) × (t : Signed) × (payload ≡ id ++ colon ∷ stamp)
    × (has_byte colon id ≡ false)
    × (parse_int stamp ≡ some t)
    × IsRecent now t

young_part :
    (now : ℕ) (id stamp : Bytes) (found : Bool)
    → found ≡ true
    → stamp_is_young now (id, stamp, found) ≡ true
    → is_young now (parse_int stamp) ≡ true
unfolding stamp_is_young
young_part now id stamp true there h = h
young_part now id stamp false there h = cc

young_iff :
    (now : ℕ) (payload : Bytes)
    → (stamp_is_young now (cut colon payload) ≡ true) ↔ IsStamped now payload
unfolding stamp_is_young
young_iff now payload = (
  λ h.
      let parts = cut colon payload in
      elim (Bool-cases parts.2) [
        | inr none_there ↦ absurd (ground (arith, h, none_there))
        | inl there ↦ elim (Option-cases (parse_int parts.1)) [
          | inl bad ↦ absurd (
              none_is_old now (
                subst (λ o. is_young now o ≡ true) bad
                  (young_part now parts.0 parts.1 parts.2 there h)))
          | inr (t, good) ↦
              let (split, clean) = cut_sound colon payload there in
              (
                parts.0,
                parts.1,
                t,
                split,
                clean,
                good,
                (is_young_iff now t).0 (
                    subst (λ o. is_young now o ≡ true) good
                      (young_part now parts.0 parts.1 parts.2 there h)),
              )
        ]
      ],
  λ (id, stamp, t, split, clean, good, recent).
      rw (split, cut-append colon id stamp clean, good) ((is_young_iff now t).1 recent),
)

module _ (mac : Bytes → Bytes) where
  -- No anonymous session is left without an ID.
  pub is_empty-mint :
      (now : ℕ) (nano_id header : Bytes)
      → is_empty (mint_or_read_anonymous_instance_id mac now nano_id header) ≡ false
  unfolding mint_or_read_anonymous_instance_id read_anonymous_instance_id sign
  is_empty-mint now nano_id header = ground (
    arith,
    is_empty-append (payload_of mac nano_id now) (bytes "." ++ mac (payload_of mac nano_id now))
        (is_empty-append_colon nano_id (format_int now)),
  )

  -- An ID is accepted exactly if it is a payload with its own signature behind a dot, the payload has no dot, neither is
  -- empty, and what stands behind the payload's first colon is the number of a time at most six hours ago; a
  -- time to come is accepted too, unless it is so far that `time.Unix` wraps around.
  pub verify_iff :
      (now : ℕ) (token : Bytes)
      → (verify mac now token ≡ true) ↔ (
          (payload : Bytes) × (token ≡ sign mac payload)
          × (has_byte dot payload ≡ false)
          × (is_empty payload ≡ false)
          × (is_empty (mac payload) ≡ false)
          × IsStamped now payload)
  unfolding verify verify_parts sign
  verify_iff now token =
      let parts = cut dot token in
      (
        λ h. (
          parts.0,
          ground (arith, h, cut_sound dot token, str_eq_iff parts.1 (mac parts.0)),
          ground (arith, h, cut_sound dot token),
          ground (arith, h),
          ground (arith, h, str_eq_iff parts.1 (mac parts.0)),
          (young_iff now parts.0).0 (ground (arith, h)),
        ),
        λ (payload, e, no_dot, full, signed, stamped).
            let young = (young_iff now payload).1 stamped in
            rw (e, cut-append dot payload (mac payload) no_dot)
              (ground (arith, full, signed, young, str_eq_refl (mac payload))),
      )

  -- An ID that was just minted is accepted until six hours have gone by, and no longer: where the
  -- nano ID has neither a dot nor a colon, the signature is not empty and `time.Unix` does not wrap around.
  pub verify-mint :
      (minted now : ℕ) (nano_id : Bytes)
      → has_byte dot nano_id ≡ false
      → has_byte colon nano_id ≡ false
      → is_empty (mac (payload_of mac nano_id minted)) ≡ false
      → minted + unix_to_internal < int64_bound
      → verify mac now (sign mac (payload_of mac nano_id minted)) ≡ leb now (minted + max_age)
  unfolding verify verify_parts sign has_byte stamp_is_young is_young
  verify-mint minted now nano_id no_dot no_colon signed small =
      let p = payload_of mac nano_id minted in
      let no_dot_in : has_byte dot p ≡ false =
        has_byte-append dot nano_id (colon ∷ format_int minted)
        ∙ ground (arith, no_dot, no_byte_in_format dot minted (omega arith)) in
      rw
        (
          cut-append dot p (mac p) no_dot_in,
          cut-append colon nano_id (format_int minted) no_colon,
          parse_int-format_int minted (omega (arith, small)),
        )
        (ground (
          arith,
          small,
          signed,
          str_eq_refl (mac p),
          is_empty-append_colon nano_id (format_int minted),
        ))
