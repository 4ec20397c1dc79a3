-- ===== src/Gobwas/Slots/Cap.antt =====
-- No slot leaks, and the cap is kept.
use go_pkg.Common.{ℕ, zero, suc, ◌+◌, ◌≤◌, ◌≡◌, ◌⊎◌, inr, refl, List, [], ◌∷◌, arith}
use go_pkg.Gobwas.{reserve_slot}
use go_pkg.Gobwas.Slots.{
  NetpollServer, new_server, Syscalls, release_client, with_slot, new_connection, SlotEvent, opens,
  removes, step, run,
}

-- The counters agree with the open connections, which are at most the cap if there is one.
pub record Balanced (max_conns : ℕ) (s : NetpollServer) (live : ℕ) : Type 0 where
  pub counted : s.connections ≡ live
  pub capped : (max_conns ≡ 0) ⊎ (live ≤ max_conns)
  pub booked : s.accepted ≡ s.closed + live

new_connection-Balanced :
    (max_conns : ℕ) (s : NetpollServer) (live : ℕ) (sys : Syscalls)
    → Balanced max_conns s live
    → Balanced max_conns
        (step max_conns (s, live) (opens sys)).0
        (step max_conns (s, live) (opens sys)).1
unfolding step new_connection with_slot release_client reserve_slot
new_connection-Balanced max_conns s live sys b = record {
  counted = ground (arith, b.counted);
  capped = ground (arith, b.counted, b.capped);
  booked = ground (arith, b.counted, b.booked);
}

run-Balanced :
    (max_conns : ℕ) (s : NetpollServer) (live : ℕ) (es : List SlotEvent)
    → Balanced max_conns s live
    → Balanced max_conns (run max_conns (s, live) es).0 (run max_conns (s, live) es).1
unfolding run step release_client
run-Balanced max_conns s live [] b = b
run-Balanced max_conns s live (opens sys ∷ es) b =
    run-Balanced max_conns _ _ es (new_connection-Balanced max_conns s live sys b)
run-Balanced max_conns s zero (removes ∷ es) b = run-Balanced max_conns s zero es b
run-Balanced max_conns s (suc live) (removes ∷ es) b =
    run-Balanced max_conns (release_client s) live es (record {
      counted = omega (arith, b.counted);
      capped = ground (arith, b.capped);
      booked = omega (arith, b.booked);
    })

-- From a new server, after any connections that are opened, refused, failed at any call or removed:
-- the counter is the number of open connections, these are at most the cap where there is one, and
-- every accepted connection is open or counted as closed.
pub slots-Balanced :
    (max_conns : ℕ) (es : List SlotEvent)
    → Balanced max_conns (run max_conns (new_server, 0) es).0 (run max_conns (new_server, 0) es).1
slots-Balanced max_conns es =
    run-Balanced max_conns new_server 0 es
      (record { counted = refl; capped = inr (omega arith); booked = omega arith })
