-- ===== src/Wire/Cursor.antt =====
-- What the readers of wire/decode.go do at a cursor, by the bytes that stand there.
use go_pkg.Common.{
  ℕ, zero, suc, ◌+◌, ◌-◌, ◌*◌, ◌/◌, ◌%◌, ◌≤◌, ◌≡◌, refl, ap, sym, ◌∙◌, bit_or, some, [], ◌∷◌, ◌++◌,
  length, length-append, take-append, drop-append, get_elem?, drop, Bytes, is_empty, not, subst,
  if◌then◌else◌, arith,
}
use mathlib.Core.List.{append-nil}
use go_pkg.Common.Bits.{bit_or-shifted}
use go_pkg.Wire.Frame.{ok}
use go_pkg.Wire.Encode.{short_field, error_field}
use go_pkg.Wire.Decode.{index, slice, read_type, read_short, read_optional, read_error}

-- The cursor stands within the data, and `rest` is what lies from there on.
pub record At (s : Bytes) (pos : ℕ) (rest : Bytes) : Type 0 where
  pub within : length s ≡ pos + length rest
  pub ahead : drop pos s ≡ rest

get_elem?-drop :
    (s : Bytes) (pos b : ℕ) (rest : Bytes) → drop pos s ≡ b ∷ rest → get_elem? s pos ≡ some b
get_elem?-drop [] zero b rest e = cc
get_elem?-drop [] (suc pos) b rest e = cc
get_elem?-drop (a ∷ s) zero b rest e = cc
get_elem?-drop (a ∷ s) (suc pos) b rest e = get_elem?-drop s pos b rest e

drop-nil : (n : ℕ) → drop {A = ℕ} n [] ≡ []
drop-nil zero = refl
drop-nil (suc n) = refl

suc-sum : (m n : ℕ) → suc m + n ≡ suc (m + n)
suc-sum m n = omega arith

drop-add : (m n : ℕ) (s : Bytes) → drop (m + n) s ≡ drop n (drop m s)
drop-add zero n s = ap (λ k. drop k s) (omega arith)
drop-add (suc m) n [] = drop-nil (suc m + n) ∙ sym (drop-nil n)
drop-add (suc m) n (a ∷ s) = ap (λ k. drop k (a ∷ s)) (suc-sum m n) ∙ drop-add m n s

pub index-At : (s : Bytes) (pos b : ℕ) (rest : Bytes) → At s pos (b ∷ rest) → index s pos ≡ ok b
unfolding index
index-At s pos b rest h = rw (get_elem?-drop s pos b rest h.ahead)

pub At-next : (s : Bytes) (pos b : ℕ) (rest : Bytes) → At s pos (b ∷ rest) → At s (pos + 1) rest
At-next s pos b rest h = record {
  within = omega arith;
  ahead = drop-add pos 1 s ∙ ap (drop 1) h.ahead;
}

cut_length : (pos n : ℕ) → pos + n - pos ≡ n
cut_length pos n = omega arith

pub slice-At :
    (s : Bytes) (pos : ℕ) (t rest : Bytes)
    → At s pos (t ++ rest)
    → slice s pos (pos + length t) ≡ ok t
unfolding slice
slice-At s pos t rest h =
    ground (arith, length-append t rest, h.ahead, take-append t rest, cut_length pos (length t))

-- `data[pos:]`.
pub tail-At : (s : Bytes) (pos : ℕ) (t : Bytes) → At s pos t → slice s pos (length s) ≡ ok t
tail-At s pos t h = rw h.within (slice-At s pos t [] (subst (At s pos) (sym (append-nil t)) h))

pub At-skip :
    (s : Bytes) (pos : ℕ) (t rest : Bytes) → At s pos (t ++ rest) → At s (pos + length t) rest
At-skip s pos t rest h = record {
  within = omega (arith, length-append t rest);
  ahead = drop-add pos (length t) s ∙ ap (drop (length t)) h.ahead ∙ drop-append t rest;
}

short-At :
    (s : Bytes) (pos n : ℕ) (t rest : Bytes)
    → n ≡ length t
    → At s pos (n ∷ t ++ rest)
    → read_short s pos ≡ ok (t, pos + 1 + length t)
unfolding read_short
short-At s pos n t rest e h = ground (
  arith,
  index-At s pos n (t ++ rest) h ∙ ap ok e,
  length-append t rest,
  slice-At s (pos + 1) t rest (At-next s pos n (t ++ rest) h),
)

-- An optional field reads back what `Encode` wrote for it, and leaves the cursor behind it.
pub optional-At :
    (s : Bytes) (pos : ℕ) (t rest : Bytes)
    → length t ≤ 255
    → At s pos (short_field t ++ rest)
    → (p : ℕ) × (read_optional s (not (is_empty t)) pos ≡ ok (t, p)) × At s p rest
unfolding read_optional short_field
optional-At s pos [] rest fits h = (pos, refl, h)
optional-At s pos (b ∷ t) rest fits h = (
  pos + 1 + length (b ∷ t),
  short-At s pos (length (b ∷ t) % 256) (b ∷ t) rest (omega arith) h,
  At-skip s (pos + 1) (b ∷ t) rest (At-next s pos (length (b ∷ t) % 256) ((b ∷ t) ++ rest) h),
)

-- The message type, or the control code where the type is empty.
pub type-At :
    (s : Bytes) (pos c : ℕ) (t rest : Bytes)
    → length t ≤ 255
    → At s pos ((if is_empty t then 0 ∷ c ∷ [] else (length t % 256) ∷ t) ++ rest)
    → (p : ℕ) × (read_type s pos ≡ ok (t, (if is_empty t then c else 0), p)) × At s p rest
unfolding read_type
type-At s pos c [] rest fits h = (
  pos + 1 + 1,
  ground (
    arith,
    index-At s pos 0 (c ∷ rest) h,
    index-At s (pos + 1) c rest (At-next s pos 0 (c ∷ rest) h),
  ),
  At-next s (pos + 1) c rest (At-next s pos 0 (c ∷ rest) h),
)
type-At s pos c (b ∷ t) rest fits h =
    let n = length (b ∷ t) % 256 in
    let e : n ≡ length (b ∷ t) = omega arith in
    let after : At s (pos + 1) ((b ∷ t) ++ rest) = At-next s pos n ((b ∷ t) ++ rest) h in
    (
      pos + 1 + length (b ∷ t),
      ground (
        arith,
        index-At s pos n ((b ∷ t) ++ rest) h ∙ ap ok e,
        length-append (b ∷ t) rest,
        slice-At s (pos + 1) (b ∷ t) rest after,
      ),
      At-skip s (pos + 1) (b ∷ t) rest after,
    )

two_bytes : (n : ℕ) → n ≤ 65535 → bit_or ((n / 256 % 256) * 256) (n % 256) ≡ n
two_bytes n h = omega (arith, bit_or-shifted (n / 256 % 256) (n % 256) (omega arith))

-- The error text with its length in two bytes, the high one first.
pub error-At :
    (s : Bytes) (pos : ℕ) (t rest : Bytes)
    → length t ≤ 65535
    → At s pos (error_field t ++ rest)
    → (p : ℕ) × (read_error s (not (is_empty t)) pos ≡ ok (t, p)) × At s p rest
unfolding read_error error_field
error-At s pos [] rest fits h = (pos, refl, h)
error-At s pos (b ∷ t) rest fits h =
    let hi = length (b ∷ t) / 256 % 256 in
    let lo = length (b ∷ t) % 256 in
    let low : At s (pos + 1) (lo ∷ (b ∷ t) ++ rest) = At-next s pos hi (lo ∷ (b ∷ t) ++ rest) h in
    let text : At s (pos + 1 + 1) ((b ∷ t) ++ rest) =
      At-next s (pos + 1) lo ((b ∷ t) ++ rest) low in
    let here : At s (pos + 2) ((b ∷ t) ++ rest) =
      subst (λ k. At s k ((b ∷ t) ++ rest)) (omega arith) text in
    (
      pos + 2 + length (b ∷ t),
      ground (
        arith,
        two_bytes (length (b ∷ t)) fits,
        index-At s pos hi (lo ∷ (b ∷ t) ++ rest) h,
        index-At s (pos + 1) lo ((b ∷ t) ++ rest) low,
        length-append (b ∷ t) rest,
        slice-At s (pos + 2) (b ∷ t) rest here,
      ),
      At-skip s (pos + 2) (b ∷ t) rest here,
    )
