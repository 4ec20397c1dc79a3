-- ===== src/Cache.antt =====
-- The cache: pkg/cache/cache_interface.go. The store behind it, floats as texts, msgpack and the types
-- that encode themselves are arguments; an int has 64 bits. Of a value that msgpack packs only the
-- packed bytes are here, of one that encodes itself its encoding.
pub mod Numbers
use go_pkg.Common.{
  ℕ, zero, suc, ◌+◌, ◌-◌, ◌*◌, Bool, true, false, Bytes, is_empty, Option, none, some, List, [],
  ◌∷◌, if◌then◌else◌, ltb, leb, ◌==◌,
}
use go_pkg.Common.Integers.{ℤ, pos, negsuc}
use go_pkg.AnonInstance.{format_int, parse_digits}

pub data NumKind : Type 0 where
  go_int int8 int16 int32 int64 go_uint uint8 uint16 uint32 uint64 : NumKind

-- The numbers of a kind are below this, and not below its negative if the kind has a sign.
abbrev pub bound : NumKind → ℕ
bound go_int = 9223372036854775808
bound int8 = 128
bound int16 = 32768
bound int32 = 2147483648
bound int64 = 9223372036854775808
bound go_uint = 18446744073709551616
bound uint8 = 256
bound uint16 = 65536
bound uint32 = 4294967296
bound uint64 = 18446744073709551616

abbrev pub is_signed : NumKind → Bool
is_signed go_uint = false
is_signed uint8 = false
is_signed uint16 = false
is_signed uint32 = false
is_signed uint64 = false
is_signed k = true

unfoldable pub fits : NumKind → ℤ → Bool
fits k (pos n) = ltb n (bound k)
fits k (negsuc n) = if is_signed k then ltb n (bound k) else false

-- `strconv.FormatInt` and `strconv.FormatUint`.
unfoldable pub convert_number_to_str : ℤ → Bytes
unfolding format_int
convert_number_to_str (pos n) = format_int n
convert_number_to_str (negsuc n) = b'-' ∷ format_int (suc n)

abbrev pub negated : ℕ → ℤ
negated zero = pos 0
negated (suc n) = negsuc n

unfoldable pub checked : NumKind → ℤ → Option ℤ
unfolding fits
checked k x = if fits k x then some x else none

-- The digits after the sign, and the check of the range: all of its errors are `none`.
unfoldable pub magnitude : NumKind → (ℕ → ℤ) → Bytes → Option ℤ
unfolding checked parse_digits
magnitude k sign s =
    if is_empty s
    then none
    else elim (parse_digits 0 s) [ none ↦ none | some n ↦ checked k (sign n) ]

-- `strconv.ParseInt` and `strconv.ParseUint` with base 10 and the kind's width.
unfoldable pub convert_str_to_number : NumKind → Bytes → Option ℤ
unfolding magnitude
convert_str_to_number k [] = none
convert_str_to_number k (c ∷ s) =
    if is_signed k
    then (if c == b'-'
        then magnitude k negated s
        else if c == b'+'
        then magnitude k pos s
        else magnitude k pos (c ∷ s))
    else magnitude k pos (c ∷ s)

pub data Value : Type 0 where
  number : NumKind → ℤ → Value
  float32 float64 : ℕ → Value
  text blob : Bytes → Value
  encodes_to : Bytes → Value
  nil_value : Value
  -- What msgpack answers, a pointer to a number included.
  packs_to : Option Bytes → Value

pub data Target : Type 0 where
  not_pointer nil_pointer : Target
  to_number : NumKind → Target
  to_float32 to_float64 to_text to_blob to_decoder to_packed : Target

-- What the target holds afterwards.
pub data Filled : Type 0 where
  got : Value → Filled
  decoded unpacked : Bytes → Filled
  as_it_was : Filled

-- `StoreAdapter`, without its error of `Flush`.
pub record StoreAdapter (S : Type 0) : Type 0 where
  pub store_set : S → Bytes → Bytes → ℕ → Bool × S
  pub store_get : S → Bytes → Option Bytes
  pub store_get_del : S → Bytes → Option Bytes × S

abbrev pub got_number : NumKind → Option ℤ → Option Filled
got_number k none = none
got_number k (some x) = some (got (number k x))

abbrev pub filled_if : Bool → Filled → Option Filled
filled_if true x = some x
filled_if false x = none

-- The formats of a float are given by its width; the numbers of floats are their bits.
module _ (format_float : ℕ → ℕ → Bytes) (parse_float : ℕ → Bytes → Option ℕ)
    (decode unmarshal : Bytes → Bool) where
  abbrev pub got_float : ℕ → (ℕ → Value) → Bytes → Option Filled
  got_float width value s = elim (parse_float width s) [
    | none ↦ none
    | some bits ↦ some (got (value bits))
  ]

  -- The text that is stored, if the value has one.
  unfoldable pub stored : Value → Option Bytes
  unfolding convert_number_to_str
  stored (number k x) = some (convert_number_to_str x)
  stored (float32 bits) = some (format_float 32 bits)
  stored (float64 bits) = some (format_float 64 bits)
  stored (text s) = some s
  stored (blob s) = some s
  stored (encodes_to s) = some s
  stored nil_value = some []
  stored (packs_to packed) = packed

  unfoldable pub unmarshal_cached_value : Bytes → Target → Option Filled
  unfolding convert_str_to_number
  unmarshal_cached_value s not_pointer = none
  unmarshal_cached_value s nil_pointer = none
  unmarshal_cached_value s (to_number k) = got_number k (convert_str_to_number k s)
  unmarshal_cached_value s to_float32 = got_float 32 float32 s
  unmarshal_cached_value s to_float64 = got_float 64 float64 s
  unmarshal_cached_value s to_text = some (got (text s))
  unmarshal_cached_value s to_blob = some (got (blob s))
  unmarshal_cached_value s to_decoder = filled_if (decode s) (decoded s)
  unmarshal_cached_value s to_packed =
      if is_empty s then some as_it_was else filled_if (unmarshal s) (unpacked s)

  module _ {S : Type 0} (adapter : StoreAdapter S) where
    unfoldable pub set : S → Bytes → Value → ℕ → Bool × S
    unfolding stored
    set store key value ttl = elim (stored value) [
      | none ↦ (false, store)
      | some s ↦ adapter.store_set store key s ttl
    ]

    unfoldable pub get : S → Bytes → Target → Option Filled
    unfolding unmarshal_cached_value
    get store key target = elim (adapter.store_get store key) [
      | none ↦ none
      | some s ↦ unmarshal_cached_value s target
    ]

    unfoldable pub get_del : S → Bytes → Target → Option Filled × S
    unfolding unmarshal_cached_value
    get_del store key target =
        let (found, store') = adapter.store_get_del store key in
        elim found [ none ↦ (none, store') | some s ↦ (unmarshal_cached_value s target, store') ]
