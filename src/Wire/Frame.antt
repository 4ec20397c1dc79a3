-- ===== src/Wire/Frame.antt =====
-- wire/frame.go: the envelope, its constants and errors. `Outcome` adds the Go panic of a slice
-- or an index out of range, which the code itself never names.
use go_pkg.Common.{ℕ, Bytes, Option, none, some}

pub record Frame : Type 0 where
  pub msg_type : Bytes
  pub control_code : ℕ
  pub id : Bytes
  pub response_to_id : Bytes
  pub ack_id : Bytes
  pub error : Bytes
  pub binary : Bytes

abbrev pub version : ℕ
version = 0x1

abbrev pub control_heartbeat : ℕ
control_heartbeat = 0xCA

abbrev pub control_ack : ℕ
control_ack = 0xCB

abbrev pub flag_id : ℕ
flag_id = 0x10

abbrev pub flag_response_to_id : ℕ
flag_response_to_id = 0x20

abbrev pub flag_ack_id : ℕ
flag_ack_id = 0x40

abbrev pub flag_error : ℕ
flag_error = 0x80

abbrev pub max_short_field : ℕ
max_short_field = 255

abbrev pub max_error_len : ℕ
max_error_len = 65535

pub data WireError : Type 0 where
  field_too_long malformed bad_version : WireError

pub data Outcome {ℓ} (A : Type ℓ) : Type ℓ where
  ok : A → Outcome A
  err : WireError → Outcome A
  panic : Outcome A

infixl 5 ◌>>=◌
abbrev pub ◌>>=◌ {ℓ κ} : {A : Type ℓ} {B : Type κ} → Outcome A → (A → Outcome B) → Outcome B
ok a >>= f = f a
err e >>= f = err e
panic >>= f = panic

-- A read that Go checks at run time.
abbrev pub or_panic {ℓ} : {A : Type ℓ} → Option A → Outcome A
or_panic none = panic
or_panic (some a) = ok a
