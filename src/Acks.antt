-- ===== src/Acks.antt =====
-- core/service/websocket/ack-manager/ack_manager.go. A channel is a number; `made` counts them and
-- `closed` lists those closed. Closing one twice is the Go panic `none`. The random part of an
-- ack ID comes from a package that is not in the repository and is an argument.
mod Channels
pub mod Safety
pub mod Waiting
use go_pkg.Common.{
  ℕ, suc, ◌+◌, Bool, true, false, ◌||◌, Option, none, some, List, [], ◌∷◌, ◌++◌, if◌then◌else◌,
  ◌==◌, Bytes, bytes,
}
use go_pkg.Common.Table.{Table, get, put, del, values}

pub record AckManager : Type 0 where
  pub pending : Table ℕ
  pub remote_acks : Table Bytes
  pub made : ℕ
  pub closed : List ℕ

abbrev pub new : AckManager
new = record { pending = []; remote_acks = []; made = 0; closed = [] }

unfoldable pub member : ℕ → List ℕ → Bool
member c [] = false
member c (x ∷ xs) = x == c || member c xs

-- `close(ch)`.
unfoldable pub close : ℕ → AckManager → Option AckManager
close ch m = if member ch m.closed then none else some (record m { closed = ch ∷ m.closed })

abbrev pub ack_prefix : Bytes
ack_prefix = bytes "ack_"

-- The new ack's ID and channel, and the manager.
unfoldable pub create_ack : AckManager → Bytes → Bytes × ℕ × AckManager
create_ack m nano_id =
    let ack_id = ack_prefix ++ nano_id in
    (ack_id, m.made, record m { pending = put ack_id m.made m.pending; made = suc m.made })

unfoldable pub resolve_ack : AckManager → Bytes → Option (Bool × AckManager)
resolve_ack m ack_id = elim (get ack_id m.pending) [
  | none ↦ some (false, m)
  | some ch ↦ elim (close ch (record m { pending = del ack_id m.pending })) [
    | none ↦ none
    | some m' ↦ some (true, m')
  ]
]

-- The `select` of `WaitForAck`: `timer` tells whether the timer's case is taken. `none` means
-- that the goroutine waits on.
unfoldable pub wait_for_ack : AckManager → Bytes → ℕ → Bool → Option (Bool × AckManager)
wait_for_ack m ack_id ch timer =
    if timer
    then some (false, record m { pending = del ack_id m.pending })
    else if member ch m.closed
    then some (true, m)
    else none

unfoldable pub register_remote_ack : AckManager → Bytes → Bytes → AckManager
register_remote_ack m ack_id source_container_id = record m {
  remote_acks = put ack_id source_container_id m.remote_acks;
}

unfoldable pub resolve_remote_ack : AckManager → Bytes → Option Bytes × AckManager
resolve_remote_ack m ack_id = elim (get ack_id m.remote_acks) [
  | none ↦ (none, m)
  | some source ↦ (some source, record m { remote_acks = del ack_id m.remote_acks })
]

-- The loop over `pending` that closes each channel.
unfoldable pub close_all : List ℕ → AckManager → Option AckManager
close_all [] m = some m
close_all (ch ∷ chs) m = elim (close ch m) [ none ↦ none | some m' ↦ close_all chs m' ]

unfoldable pub shutdown : AckManager → Option AckManager
shutdown m = close_all (values m.pending) (record m { pending = []; remote_acks = [] })

-- What the other goroutines may do to the manager.
pub data AckEvent : Type 0 where
  creates resolves resolves_remote : Bytes → AckEvent
  times_out : Bytes → ℕ → AckEvent
  registers_remote : Bytes → Bytes → AckEvent
  shuts_down : AckEvent

unfoldable pub step : AckManager → AckEvent → Option AckManager
step m (creates nano_id) = some (create_ack m nano_id).2
step m (resolves ack_id) = elim (resolve_ack m ack_id) [ none ↦ none | some r ↦ some r.1 ]
step m (resolves_remote ack_id) = some (resolve_remote_ack m ack_id).1
step m (times_out ack_id ch) = elim (wait_for_ack m ack_id ch true) [
  | none ↦ none
  | some r ↦ some r.1
]
step m (registers_remote ack_id source) = some (register_remote_ack m ack_id source)
step m shuts_down = shutdown m

unfoldable pub run : AckManager → List AckEvent → Option AckManager
run m [] = some m
run m (e ∷ es) = elim (step m e) [ none ↦ none | some m' ↦ run m' es ]
