-- ===== src/ClientMessages/Window.antt =====
-- heartbeat_throttle.go and msg_deduplicator.go. Both keep the time at which a key was last let
-- through; times are numbers that do not go back, and `now.Sub(t) < ttl` is `now < t + ttl`.
pub mod Seen
use go_pkg.Common.{
  ℕ, ◌+◌, Bool, true, false, Bytes, Option, none, some, List, [], ◌∷◌, if◌then◌else◌, ltb, leb,
}
use go_pkg.Common.Table.{Table, get, put}

-- In milliseconds.
abbrev pub heartbeat_throttle_duration : ℕ
heartbeat_throttle_duration = 10000

abbrev pub msg_deduplicate_ttl : ℕ
msg_deduplicate_ttl = 120000

unfoldable pub within : ℕ → ℕ → Option ℕ → Bool
within ttl now none = false
within ttl now (some at) = ltb now (at + ttl)

unfoldable pub should_update : Table ℕ → ℕ → Bytes → Bool × Table ℕ
should_update entries now key =
    if within heartbeat_throttle_duration now (get key entries)
    then (false, entries)
    else (true, put key now entries)

unfoldable pub is_duplicate : Table ℕ → ℕ → Bytes → Bool × Table ℕ
is_duplicate entries now key =
    if within msg_deduplicate_ttl now (get key entries)
    then (true, entries)
    else (false, put key now entries)

-- `clearExpiredEntries`.
unfoldable pub clear_expired_entries : ℕ → ℕ → Table ℕ → Table ℕ
clear_expired_entries ttl now [] = []
clear_expired_entries ttl now ((key, at) ∷ entries) =
    let rest = clear_expired_entries ttl now entries in
    if leb (at + ttl) now then rest else (key, at) ∷ rest
