-- ===== src/Gobwas/Slots.antt =====
-- The slots of the connections: `NewConnection` and `removeClient` of 1_server.go.
pub mod Cap
use go_pkg.Common.{
  ℕ, zero, suc, ◌+◌, ◌-◌, Bool, true, false, not, ◌&&◌, Option, none, some, List, [], ◌∷◌,
  if◌then◌else◌, ltb, leb, ◌==◌,
}
use go_pkg.Gobwas.{reserve_slot}

-- `connections` and the counters of `serverStats`.
pub record NetpollServer : Type 0 where
  pub connections : ℕ
  pub accepted : ℕ
  pub closed : ℕ
  pub rejected : ℕ

abbrev pub new_server : NetpollServer
new_server = record { connections = 0; accepted = 0; closed = 0; rejected = 0 }

-- What the system answers to the calls of `NewConnection`, in their order.
pub record Syscalls : Type 0 where
  pub healthy : Bool
  pub has_conn : Bool
  pub fd_ok : Bool
  pub desc_ok : Bool
  pub start_ok : Bool

pub data NewResult : Type 0 where
  shutting_down no_conn at_capacity no_fd no_desc not_started opened : NewResult

-- The counters after `removeClient` won its compare-and-swap.
unfoldable pub release_client : NetpollServer → NetpollServer
release_client s = record s { connections = s.connections - 1; closed = s.closed + 1 }

-- `NewConnection` from the reserved slot on; the counter never is 0 there.
unfoldable pub with_slot : NetpollServer → Syscalls → NetpollServer × NewResult
unfolding release_client
with_slot s sys =
    let accepted = record s { accepted = s.accepted + 1 } in
    if not sys.fd_ok
    then (record s { connections = s.connections - 1 }, no_fd)
    else if not sys.desc_ok
    then (record accepted { connections = s.connections - 1; closed = s.closed + 1 }, no_desc)
    else if not sys.start_ok
    then (release_client accepted, not_started)
    else (accepted, opened)

unfoldable pub new_connection : ℕ → NetpollServer → Syscalls → NetpollServer × NewResult
unfolding with_slot
new_connection max_conns s sys =
    if not sys.healthy
    then (s, shutting_down)
    else if not sys.has_conn
    then (s, no_conn)
    else (let (count, reserved) = reserve_slot max_conns s.connections in
        if reserved
        then with_slot (record s { connections = count }) sys
        else (record s { rejected = s.rejected + 1 }, at_capacity))

-- A new connection, or the first close of one that is open.
pub data SlotEvent : Type 0 where
  opens : Syscalls → SlotEvent
  removes : SlotEvent

abbrev pub is_opened : NewResult → Bool
is_opened opened = true
is_opened r = false

-- The server and the number of its open connections; there is none to remove at 0.
unfoldable pub step : ℕ → NetpollServer × ℕ → SlotEvent → NetpollServer × ℕ
unfolding release_client
step max_conns (s, live) (opens sys) =
    let (s', r) = new_connection max_conns s sys in (s', if is_opened r then live + 1 else live)
step max_conns (s, zero) removes = (s, zero)
step max_conns (s, suc live) removes = (release_client s, live)

unfoldable pub run : ℕ → NetpollServer × ℕ → List SlotEvent → NetpollServer × ℕ
run max_conns s [] = s
run max_conns s (e ∷ es) = run max_conns (step max_conns s e) es
