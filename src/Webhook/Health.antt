-- ===== src/Webhook/Health.antt =====
-- The health of the backend: server/webhook/health.go and the loop of server/webhook/ping.go.
pub mod Alarms
use go_pkg.Common.{
  ℕ, zero, suc, ◌+◌, ◌-◌, ◌≤◌, Bool, true, false, ◌&&◌, not, Option, none, some, List, [], ◌∷◌,
  if◌then◌else◌, ltb, leb,
}
use go_pkg.Webhook.Breaker.{CircuitBreaker, open_since}

-- `calls` counts the calls of `onUnhealthy`.
pub record HealthMonitor : Type 0 where
  pub healthy : Bool
  pub fired : Bool
  pub calls : ℕ

abbrev pub new_health_monitor : HealthMonitor
new_health_monitor = record { healthy = true; fired = false; calls = 0 }

unfoldable pub set_healthy : HealthMonitor → HealthMonitor
set_healthy m = record m { healthy = true }

unfoldable pub set_unhealthy : HealthMonitor → HealthMonitor
set_unhealthy m = record {
  healthy = false;
  fired = true;
  calls = if m.fired then m.calls else m.calls + 1;
}

unfoldable pub is_healthy : HealthMonitor → Bool
is_healthy m = m.healthy

-- A ping's answer: the status, or none where the post failed.
abbrev pub Answer : Type 0
Answer = Option ℕ

unfoldable pub ping : Answer → Bool
ping none = false
ping (some status) = leb 200 status && ltb status 300

abbrev pub at_least_one : ℕ → ℕ
at_least_one threshold = if ltb threshold 1 then 1 else threshold

-- One tick of `Run`, with the callbacks of the monitor: the new streak and the monitor.
unfoldable pub tick : ℕ → ℕ × HealthMonitor → Answer → ℕ × HealthMonitor
unfolding ping set_healthy set_unhealthy
tick threshold (streak, m) answer =
    if ping answer
    then (0, set_healthy m)
    else (streak + 1, if leb threshold (streak + 1) then set_unhealthy m else m)

-- `Run` of a pinger made by `NewPinger`, over the answers of its ticks.
unfoldable pub run_pings : ℕ → ℕ × HealthMonitor → List Answer → ℕ × HealthMonitor
run_pings threshold s [] = s
run_pings threshold s (answer ∷ answers) =
    run_pings threshold (tick (at_least_one threshold) s answer) answers

-- One tick of `WatchBreakerOpen`.
unfoldable pub watch_breaker_open : CircuitBreaker → ℕ → ℕ → HealthMonitor → HealthMonitor
watch_breaker_open b max_open now m = elim (open_since b) [
  | none ↦ m
  | some at ↦ if leb (at + max_open) now then set_unhealthy m else m
]
