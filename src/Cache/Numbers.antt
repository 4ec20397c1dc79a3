-- ===== src/Cache/Numbers.antt =====
-- What becomes of a number in the cache.
use go_pkg.Common.{
  ℕ, suc, Bool, true, false, ◌≡◌, refl, ◌∙◌, ap, Bytes, is_empty, Option, none, some, [], ◌∷◌,
  Bool-cases, Option-cases, inl, inr, arith,
}
use go_pkg.Common.Integers.{ℤ, pos, negsuc}
use go_pkg.AnonInstance.{format_int, parse_digits}
use go_pkg.AnonInstance.Tokens.{
  has_byte, parse_digits-format_from, is_empty-format_int, no_byte_in_format,
}
use go_pkg.Cache.{
  NumKind, go_int, got_number, is_signed, fits, convert_number_to_str, negated, checked, magnitude,
  convert_str_to_number, number, packs_to, to_number, Filled, got, StoreAdapter, stored,
  unmarshal_cached_value, set, get,
}

magnitude-format_int :
    (k : NumKind) (sign : ℕ → ℤ) (n : ℕ) → magnitude k sign (format_int n) ≡ checked k (sign n)
unfolding magnitude format_int parse_digits
magnitude-format_int k sign n =
    rw (is_empty-format_int n, parse_digits-format_from (suc n) n [] (omega arith)) refl

-- A text with no sign is read the same way by both functions.
no_sign :
    (k : NumKind) (s : Bytes)
    → has_byte b'-' s ≡ false
    → has_byte b'+' s ≡ false
    → convert_str_to_number k s ≡ magnitude k pos s
unfolding convert_str_to_number has_byte magnitude
no_sign k [] h h' = refl
no_sign k (c ∷ s) h h' = ground (arith, h, h')

read_negative :
    (k : NumKind) (s : Bytes)
    → is_signed k ≡ true
    → convert_str_to_number k (b'-' ∷ s) ≡ magnitude k negated s
unfolding convert_str_to_number
read_negative k s h = rw h refl

negative-is_signed : (k : NumKind) (n : ℕ) → fits k (negsuc n) ≡ true → is_signed k ≡ true
unfolding fits
negative-is_signed k n h = elim (Bool-cases (is_signed k)) [
  | inl e ↦ e
  | inr e ↦ absurd (ground (arith, h, e))
]

checked-fits : (k : NumKind) (x : ℤ) → fits k x ≡ true → checked k x ≡ some x
unfolding checked
checked-fits k x h = rw h refl

convert-convert :
    (k : NumKind) (x : ℤ)
    → fits k x ≡ true
    → convert_str_to_number k (convert_number_to_str x) ≡ some x
unfolding convert_number_to_str checked
convert-convert k (pos n) h =
    no_sign k (format_int n) (no_byte_in_format b'-' n (omega arith))
      (no_byte_in_format b'+' n (omega arith))
    ∙ (magnitude-format_int k pos n ∙ checked-fits k (pos n) h)
convert-convert k (negsuc n) h =
    read_negative k (format_int (suc n)) (negative-is_signed k n h)
    ∙ (magnitude-format_int k negated (suc n) ∙ checked-fits k (negsuc n) h)

-- What is read of any text as a number of a kind is a number of that kind.
magnitude-fits :
    (k : NumKind) (sign : ℕ → ℤ) (s : Bytes) (x : ℤ) → magnitude k sign s ≡ some x → fits k x ≡ true
unfolding magnitude checked
magnitude-fits k sign s x h = elim (Bool-cases (is_empty s)) [
  | inl e ↦ absurd (ground (arith, h, e))
  | inr e ↦ elim (Option-cases (parse_digits 0 s)) [
    | inl bad ↦ absurd (ground (arith, h, e, bad))
    | inr (n, good) ↦ elim (Bool-cases (fits k (sign n))) [
      | inl ok ↦ ground (arith, h, e, good, ok)
      | inr off ↦ absurd (ground (arith, h, e, good, off))
    ]
  ]
]

convert_fits :
    (k : NumKind) (s : Bytes) (x : ℤ) → convert_str_to_number k s ≡ some x → fits k x ≡ true
unfolding convert_str_to_number
convert_fits k [] x h = absurd (ground (arith, h))
convert_fits k (c ∷ s) x h = ground (
  arith,
  h,
  magnitude-fits k negated s x,
  magnitude-fits k pos s x,
  magnitude-fits k pos (c ∷ s) x,
)

module _ (format_float : ℕ → ℕ → Bytes) (parse_float : ℕ → Bytes → Option ℕ)
    (decode unmarshal : Bytes → Bool) {S : Type 0} (adapter : StoreAdapter S) where
  -- If the store gives what it was set to, a number that is one of its kind and that `Set` accepted is
  -- what `Get` finds into a variable of this kind.
  pub number_kept :
      (store : S) (key : Bytes) (k : NumKind) (x : ℤ) (ttl : ℕ)
      → fits k x ≡ true
      → ((s : Bytes)
          → (adapter.store_set store key s ttl).0 ≡ true
          → adapter.store_get (adapter.store_set store key s ttl).1 key ≡ some s)
      → (set format_float parse_float decode unmarshal adapter store key (number k x) ttl).0 ≡ true
      → get format_float parse_float decode unmarshal adapter
          (set format_float parse_float decode unmarshal adapter store key (number k x) ttl).1
          key
          (to_number k)
        ≡ some (got (number k x))
  unfolding set get stored unmarshal_cached_value
  number_kept store key k x ttl ok keeps accepted =
      let text = convert_number_to_str x in
      ap (λ held. elim held [ none ↦ none | some s ↦ got_number k (convert_str_to_number k s) ])
        (keeps text accepted)
      ∙ ap (got_number k) (convert-convert k x ok)

  -- Whatever the store holds, what `Get` finds into a variable of a kind is a number of this kind, so
  -- that no conversion wraps around.
  pub number_read_fits :
      (store : S) (key : Bytes) (k : NumKind) (f : Filled)
      → get format_float parse_float decode unmarshal adapter store key (to_number k) ≡ some f
      → (y : ℤ) × (f ≡ got (number k y)) × (fits k y ≡ true)
  unfolding get unmarshal_cached_value
  number_read_fits store key k f found = elim (Option-cases (adapter.store_get store key)) [
    | inl gone ↦ absurd (ground (arith, found, gone))
    | inr (s, held) ↦ elim (Option-cases (convert_str_to_number k s)) [
      | inl bad ↦ absurd (ground (arith, found, held, bad))
      | inr (y, good) ↦ (y, ground (arith, found, held, good), convert_fits k s y good)
    ]
  ]

  -- A pointer to the number 50 is packed to one byte, which `Get` into an int reads as the digit 2. So
  -- a value that was set by its pointer, as `CacheThis` does, is read as another number.
  pub pointer_misread :
      (store : S) (key : Bytes) (ttl : ℕ)
      → ((s : Bytes)
          → (adapter.store_set store key s ttl).0 ≡ true
          → adapter.store_get (adapter.store_set store key s ttl).1 key ≡ some s)
      → (set format_float parse_float decode unmarshal adapter store key
          (packs_to (some (50 ∷ [])))
          ttl).0
        ≡ true
      → get format_float parse_float decode unmarshal adapter
          (set format_float parse_float decode unmarshal adapter store key
            (packs_to (some (50 ∷ [])))
            ttl).1
          key
          (to_number go_int)
        ≡ some (got (number go_int (pos 2)))
  unfolding set get stored unmarshal_cached_value convert_str_to_number magnitude parse_digits
      checked fits
  pointer_misread store key ttl keeps accepted =
      ap
        (λ held. elim held [
          | none ↦ none
          | some s ↦ got_number go_int (convert_str_to_number go_int s)
        ])
        (keeps (50 ∷ []) accepted)
