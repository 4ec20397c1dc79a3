-- ===== src/Gobwas/Pings.antt =====
-- The heartbeat of the transport: `nextPingAction` of 1_type.go between reads.
use go_pkg.Common.{ℕ, ◌+◌, ◌≤◌, ◌≡◌, ◌≢◌, false, leb, if◌then◌else◌, arith}
use go_pkg.Gobwas.{Client, note_read, skip_ping, send_ping, close_peer, next_ping_action}

-- A peer that sends nothing for `pingIdleAfter` is pinged; it is closed at the next tick that is
-- `pongTimeout` later or more, unless anything was read in between, and no tick before closes it.
pub silent_peer_closed :
    (idle timeout : ℕ) (cl : Client) (sent read now : ℕ)
    → cl.awaiting_pong ≡ false
    → cl.last_read_at + idle ≤ sent
    → let (action, pinged) = next_ping_action idle timeout cl sent in
      (action ≡ send_ping)
      × ((next_ping_action idle timeout pinged now).0
          ≡ (if leb (sent + timeout) now then close_peer else skip_ping))
      × ((next_ping_action idle timeout (note_read pinged read) now).0 ≢ close_peer)
unfolding next_ping_action note_read
silent_peer_closed idle timeout cl sent read now fresh quiet = (
  ground (arith, fresh, quiet),
  ground (arith, fresh, quiet),
  λ e. ground (arith, fresh, quiet, e),
)
