-- ===== src/Wire/Readers.antt =====
-- The readers of wire/decode.go: each stays within the data, and its text within its length prefix.
use go_pkg.Common.{
  ℕ, zero, suc, ◌+◌, ◌-◌, ◌*◌, ◌≤◌, ◌<◌, ◌≡◌, refl, inl, inr, bit_or, Bool, true, false, [], ◌∷◌,
  leb, ltb, ◌==◌, length, length-drop, get_elem?, take, drop, Bytes, is_empty, All, Bool-cases,
  some, arith,
}
use go_pkg.Common.Bits.{bit_or-shifted}
use go_pkg.Wire.Frame.{Outcome, ok, err, panic}
use go_pkg.Wire.Decode.{index, slice, read_type, read_short, read_optional, read_error}

abbrev pub IsByte : ℕ → Type 0
IsByte b = b < 256

-- A reader's result: its cursor stays within the data, its text within `n` bytes if the data are
-- bytes, and it does not panic.
abbrev pub Reads : Bytes → ℕ → Outcome (Bytes × ℕ) → Type 0
Reads s n (ok (t, p)) = (p ≤ length s) × (All IsByte s → length t ≤ n)
Reads s n (err e) = Unit
Reads s n panic = ⊥

get_elem?-within :
    (s : Bytes) (i : ℕ)
    → i < length s
    → (b : ℕ) × (get_elem? s i ≡ some b) × (All IsByte s → b < 256)
get_elem?-within [] i h = elim h [ ]
get_elem?-within (b ∷ s) zero h = (b, refl, λ all. all.0)
get_elem?-within (b ∷ s) (suc i) h =
    let (c, e, small) = get_elem?-within s i (omega arith) in (c, e, λ all. small all.1)

length-take : (n : ℕ) (s : Bytes) → n ≤ length s → length (take n s) ≡ n
length-take zero s h = refl
length-take (suc n) [] h = absurd (omega arith)
length-take (suc n) (b ∷ s) h = omega (arith, length-take n s)

pub index-within :
    (s : Bytes) (i : ℕ) → i < length s → (b : ℕ) × (index s i ≡ ok b) × (All IsByte s → b < 256)
unfolding index
index-within s i h = let (b, e, small) = get_elem?-within s i h in (b, rw e, small)

pub slice-within :
    (s : Bytes) (lo n : ℕ)
    → lo + n ≤ length s
    → (t : Bytes) × (slice s lo (lo + n) ≡ ok t) × (length t ≡ n)
unfolding slice
slice-within s lo n h = (
  take (lo + n - lo) (drop lo s),
  ground arith,
  omega (arith, length-take (lo + n - lo) (drop lo s), length-drop lo s),
)

read_short-Reads : (s : Bytes) (pos : ℕ) → Reads s 255 (read_short s pos)
unfolding read_short
read_short-Reads s pos = elim (Bool-cases (leb (length s) pos)) [
  | inl e ↦ rw e tt
  | inr e ↦
      let (n, at_pos, small) = index-within s pos (ground arith) in
      elim (Bool-cases (ltb (length s) (pos + 1 + n))) [
        | inl long ↦ rw (e, at_pos, long) tt
        | inr fits ↦
            let (t, text, len) = slice-within s (pos + 1) n (ground arith) in
            rw (e, at_pos, fits, text) (ground arith, λ all. omega (arith, small all))
      ]
]

pub read_optional-Reads :
    (s : Bytes) (present : Bool) (pos : ℕ)
    → pos ≤ length s
    → Reads s 255 (read_optional s present pos)
unfolding read_optional
read_optional-Reads s true pos h = read_short-Reads s pos
read_optional-Reads s false pos h = (h, λ all. omega arith)

pub read_error-Reads :
    (s : Bytes) (present : Bool) (pos : ℕ)
    → pos ≤ length s
    → Reads s 65535 (read_error s present pos)
unfolding read_error
read_error-Reads s false pos h = (h, λ all. omega arith)
read_error-Reads s true pos h = elim (Bool-cases (ltb (length s) (pos + 2))) [
  | inl e ↦ rw e tt
  | inr e ↦
      let (hi, at_hi, small_hi) = index-within s pos (ground arith) in
      let (lo, at_lo, small_lo) = index-within s (pos + 1) (ground arith) in
      let n = bit_or (hi * 256) lo in
      elim (Bool-cases (ltb (length s) (pos + 2 + n))) [
        | inl long ↦ rw (e, at_hi, at_lo, long) tt
        | inr fits ↦
            let (t, text, len) = slice-within s (pos + 2) n (ground arith) in
            rw (e, at_hi, at_lo, fits, text)
              (
                ground arith,
                λ all.
                    omega (arith, small_hi all, small_lo all, bit_or-shifted hi lo (small_lo all)),
              )
      ]
]

-- The type, the control code beside an empty type only, and the cursor.
abbrev pub ReadsType : Bytes → Outcome (Bytes × ℕ × ℕ) → Type 0
ReadsType s (ok (t, c, p)) =
    (p ≤ length s) × (All IsByte s → length t ≤ 255) × (is_empty t ≡ false → c ≡ 0)
ReadsType s (err e) = Unit
ReadsType s panic = ⊥

pub read_type-Reads : (s : Bytes) (pos : ℕ) → pos < length s → ReadsType s (read_type s pos)
unfolding read_type
read_type-Reads s pos h =
    let (n, at_pos, small) = index-within s pos h in
    elim (Bool-cases (n == 0)) [
      | inl control ↦ elim (Bool-cases (leb (length s) (pos + 1))) [
        | inl e ↦ rw (at_pos, control, e) tt
        | inr e ↦
            let (c, at_next, low) = index-within s (pos + 1) (ground arith) in
            rw (at_pos, control, e, at_next) (ground arith, λ all. omega arith, λ no_type. cc)
      ]
      | inr typed ↦ elim (Bool-cases (ltb (length s) (pos + 1 + n))) [
        | inl e ↦ rw (at_pos, typed, e) tt
        | inr e ↦
            let (t, text, len) = slice-within s (pos + 1) n (ground arith) in
            rw (at_pos, typed, e, text)
              (ground arith, λ all. omega (arith, small all), λ has_type. refl)
      ]
    ]
