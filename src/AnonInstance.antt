-- ===== src/AnonInstance.antt =====
-- The signed IDs of anonymous sessions: core/service/websocket/mediator/delivery/anon_instance.go. HMAC
-- with its base64 text is the argument `mac`, the new nano ID an argument too. Times are seconds since 1970.
pub mod Tokens
use go_pkg.Common.{
  ℕ, zero, suc, ◌+◌, ◌-◌, ◌*◌, ◌/◌, ◌%◌, Bool, true, false, ◌&&◌, ◌||◌, not, Bytes, bytes, is_empty,
  str_eq, Option, none, some, List, [], ◌∷◌, ◌++◌, if◌then◌else◌, ltb, leb, ◌==◌,
}

abbrev pub colon : ℕ
colon = b':'

abbrev pub dot : ℕ
dot = b'.'

-- `anonymousInstanceMaxAge`, six hours.
abbrev pub max_age : ℕ
max_age = 21600

-- `strings.Cut` at one byte: before, after and whether it was found.
unfoldable pub cut : ℕ → Bytes → Bytes × Bytes × Bool
cut sep [] = ([], [], false)
cut sep (c ∷ s) =
    let rest = cut sep s in if c == sep then ([], s, true) else (c ∷ rest.0, rest.1, rest.2)

-- `strconv.FormatInt(n, 10)` of a number that is not negative, from the last digit.
unfoldable pub format_from : ℕ → ℕ → Bytes → Bytes
format_from zero n digits = digits
format_from (suc fuel) n digits =
    let more = format_from fuel (n / 10) ((48 + n % 10) ∷ digits) in
    if n / 10 == 0 then (48 + n % 10) ∷ digits else more

unfoldable pub format_int : ℕ → Bytes
unfolding format_from
format_int n = format_from (suc n) n []

unfoldable pub parse_digits : ℕ → Bytes → Option ℕ
parse_digits n [] = some n
parse_digits n (c ∷ s) = if leb 48 c && leb c 57 then parse_digits (n * 10 + (c - 48)) s else none

-- A signed number, by its sign and its amount.
pub record Signed : Type 0 where
  pub negative : Bool
  pub amount : ℕ

abbrev pub int64_bound : ℕ
int64_bound = 9223372036854775808

-- The amount of an int64 with this sign.
unfoldable pub in_range : Bool → Option ℕ → Option Signed
in_range negative none = none
in_range negative (some n) =
    if (if negative then leb n int64_bound else ltb n int64_bound)
    then some (record { negative = negative; amount = n })
    else none

unfoldable pub unsigned : Bool → Bytes → Option Signed
unfolding in_range parse_digits
unsigned negative s = if is_empty s then none else in_range negative (parse_digits 0 s)

-- `strconv.ParseInt(s, 10, 64)`; every error is `none`.
unfoldable pub parse_int : Bytes → Option Signed
unfolding unsigned
parse_int [] = none
parse_int (c ∷ s) =
    if c == b'-'
    then unsigned true s
    else if c == b'+'
    then unsigned false s
    else unsigned false (c ∷ s)

-- `time.Time` counts the seconds from year 1, so that `time.Unix` adds this to the stamp, as an int64.
abbrev pub unix_to_internal : ℕ
unix_to_internal = 62135596800

-- `time.Since(time.Unix(mintedAt, 0)) <= anonymousInstanceMaxAge`: where the sum wraps around, the time is
-- long past and its age is the greatest there is. A sum with a negative stamp does not wrap.
unfoldable pub is_young : ℕ → Option Signed → Bool
is_young now none = false
is_young now (some t) =
    if t.negative
    then leb (now + t.amount) max_age
    else ltb (t.amount + unix_to_internal) int64_bound && leb now (t.amount + max_age)

unfoldable pub stamp_is_young : ℕ → Bytes × Bytes × Bool → Bool
unfolding parse_int is_young
stamp_is_young now (id, stamp, found) = if found then is_young now (parse_int stamp) else false

module _ (mac : Bytes → Bytes) where
  unfoldable pub sign : Bytes → Bytes
  sign payload = payload ++ (bytes "." ++ mac payload)

  unfoldable pub verify_parts : ℕ → Bytes × Bytes × Bool → Bool
  unfolding stamp_is_young cut
  verify_parts now (payload, sig, found) =
      if not found || is_empty payload || is_empty sig
      then false
      else if not (str_eq sig (mac payload))
      then false
      else stamp_is_young now (cut colon payload)

  unfoldable pub verify : ℕ → Bytes → Bool
  unfolding verify_parts cut
  verify now token = verify_parts now (cut dot token)

  -- `readAnonymousInstanceID`; the header is empty where it is missing.
  unfoldable pub read_anonymous_instance_id : ℕ → Bytes → Option Bytes
  unfolding verify
  read_anonymous_instance_id now header =
      if is_empty header || not (verify now header) then none else some header

  abbrev pub payload_of : Bytes → ℕ → Bytes
  payload_of nano_id now = nano_id ++ (bytes ":" ++ format_int now)

  unfoldable pub mint_or_read_anonymous_instance_id : ℕ → Bytes → Bytes → Bytes
  unfolding read_anonymous_instance_id sign format_int
  mint_or_read_anonymous_instance_id now nano_id header =
      elim (read_anonymous_instance_id now header) [
        | some token ↦ token
        | none ↦ sign (payload_of nano_id now)
      ]
