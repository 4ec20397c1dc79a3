-- ===== src/Labels.antt =====
-- The labels of metrics: pkg/metrics/sanitize.go. The set of allowed types is a list.
pub mod Bounded
use go_pkg.Common.{
  ℕ, Bool, true, false, ◌&&◌, ◌||◌, not, Bytes, bytes, is_empty, str_eq, Option, none, some, List,
  [], ◌∷◌, if◌then◌else◌, ltb, leb, ◌==◌, length,
}

abbrev pub max_msg_type_len : ℕ
max_msg_type_len = 32

abbrev pub sys_byte_heartbeat : ℕ
sys_byte_heartbeat = 202

abbrev pub sys_byte_ack : ℕ
sys_byte_ack = 203

unfoldable pub is_printable_ascii : Bytes → Bool
is_printable_ascii [] = true
is_printable_ascii (c ∷ s) = leb 32 c && leb c 126 && is_printable_ascii s

unfoldable pub in_allowlist : Bytes → List Bytes → Bool
in_allowlist raw [] = false
in_allowlist raw (e ∷ es) = str_eq e raw || in_allowlist raw es

-- The first `switch`, for a text of one byte.
unfoldable pub system_label : Bytes → Option Bytes
system_label [] = none
system_label (c ∷ []) =
    if c == sys_byte_heartbeat
    then some (bytes "heartbeat")
    else if c == sys_byte_ack
    then some (bytes "ack")
    else none
system_label (c ∷ d ∷ s) = none

unfoldable pub app_label : Bytes → List Bytes → Bytes
unfolding in_allowlist is_printable_ascii
app_label raw allowlist =
    if is_empty raw || ltb max_msg_type_len (length raw)
    then bytes "other"
    else if not (in_allowlist raw allowlist)
    then bytes "other"
    else if not (is_printable_ascii raw)
    then bytes "other"
    else raw

-- `SanitizeMsgType`.
unfoldable pub sanitize_msg_type : Bytes → List Bytes → Bytes
unfolding system_label app_label
sanitize_msg_type raw allowlist = elim (system_label raw) [
  | some label ↦ label
  | none ↦ app_label raw allowlist
]

-- What the standard library says of an error, in the order in which it is asked.
pub record ErrorKind : Type 0 where
  pub is_deadline_exceeded : Bool
  pub is_conn_refused : Bool
  pub is_dns : Bool
  pub is_timeout : Bool

-- `ClassifyCallbackError`; empty where the call succeeded.
unfoldable pub classify_callback_error : Option ErrorKind → ℕ → Bytes
classify_callback_error (some e) status_code =
    if e.is_deadline_exceeded
    then bytes "timeout"
    else if e.is_conn_refused
    then bytes "conn_refused"
    else if e.is_dns
    then bytes "dns"
    else if e.is_timeout
    then bytes "timeout"
    else bytes "other"
classify_callback_error none status_code =
    if leb 500 status_code
    then bytes "status_5xx"
    else if leb 400 status_code
    then bytes "status_4xx"
    else []
