-- ===== src/Webhook/Health/Alarms.antt =====
-- When the backend counts as unhealthy.
use go_pkg.Common.{
  ℕ, ◌+◌, ◌≤◌, ◌<◌, ◌≡◌, refl, ◌∙◌, ap, ◌↔◌, false, List, [], ◌∷◌, if◌then◌else◌, ltb, leb,
  Bool-cases, inl, inr, arith,
}
use go_pkg.Webhook.Breaker
use go_pkg.Webhook.Breaker.{History, record_all, open_since, record_result}
use go_pkg.Webhook.Health.{
  HealthMonitor, new_health_monitor, set_healthy, set_unhealthy, is_healthy, Answer, ping,
  at_least_one, tick, run_pings, watch_breaker_open,
}

-- The failures since the last success, at the end of the answers.
pub fails_in_row : ℕ → List Answer → ℕ
fails_in_row n [] = n
fails_in_row n (answer ∷ answers) = fails_in_row (if ping answer then 0 else n + 1) answers

-- The monitor beside a pinger's streak: unhealthy where the streak is at the threshold, and with
-- one call of `onUnhealthy` once it has fired.
record Watched (threshold : ℕ) (s : ℕ × HealthMonitor) : Type 0 where
  healthy_below : is_healthy s.1 ≡ ltb s.0 threshold
  called_once : (s.1).calls ≡ (if (s.1).fired then 1 else 0)

tick-Watched :
    (threshold : ℕ) (s : ℕ × HealthMonitor) (answer : Answer)
    → 0 < threshold
    → Watched threshold s
    → Watched threshold (tick threshold s answer)
unfolding tick set_healthy set_unhealthy is_healthy
tick-Watched threshold s answer pos w = elim (Bool-cases (ping answer)) [
  | inl e ↦
      rw (e, tick) (record { healthy_below = ground (arith, pos); called_once = w.called_once })
  | inr e ↦ elim (Bool-cases (leb threshold (s.0 + 1))) [
    | inl f ↦
        rw (e, f, tick)
          (record {
            healthy_below = ground (arith, f);
            called_once = ground (arith, w.called_once);
          })
    | inr f ↦
        rw (e, f, tick)
          (record {
            healthy_below = ground (arith, f, w.healthy_below);
            called_once = w.called_once;
          })
  ]
]

tick-streak :
    (threshold : ℕ) (s : ℕ × HealthMonitor) (answer : Answer)
    → (tick threshold s answer).0 ≡ (if ping answer then 0 else s.0 + 1)
unfolding tick
tick-streak threshold s answer = elim (Bool-cases (ping answer)) [
  | inl e ↦ rw (e, tick) refl
  | inr e ↦ rw (e, tick) refl
]

run_pings-Watched :
    (threshold : ℕ) (s : ℕ × HealthMonitor) (answers : List Answer)
    → Watched (at_least_one threshold) s
    → Watched (at_least_one threshold) (run_pings threshold s answers)
      × ((run_pings threshold s answers).0 ≡ fails_in_row s.0 answers)
unfolding run_pings fails_in_row
run_pings-Watched threshold s [] w = (w, refl)
run_pings-Watched threshold s (answer ∷ answers) w =
    let s' = tick (at_least_one threshold) s answer in
    let w' = tick-Watched (at_least_one threshold) s answer (ground arith) w in
    let (w'', e) = run_pings-Watched threshold s' answers w' in
    (w'', e ∙ ap (λ n. fails_in_row n answers) (tick-streak (at_least_one threshold) s answer))

-- After the answers of any number of pings the backend counts as unhealthy exactly if the last
-- `threshold` of them failed (the last one, where the threshold is less than 1), and `onUnhealthy`
-- has been called at most once.
pub unhealthy_after_failures :
    (threshold : ℕ) (answers : List Answer)
    → let m = (run_pings threshold (0, new_health_monitor) answers).1 in
      ((is_healthy m ≡ false) ↔ (at_least_one threshold ≤ fails_in_row 0 answers)) × (m.calls ≤ 1)
unfolding is_healthy
unhealthy_after_failures threshold answers =
    let (w, e) =
      run_pings-Watched threshold (0, new_health_monitor) answers
        (record { healthy_below = ground arith; called_once = refl }) in
    (
      (λ h. ground (arith, w.healthy_below, e), λ h. ground (arith, w.healthy_below, e)),
      ground (arith, w.called_once),
    )

-- While the latest recorded result is a failure younger than `maxOpen`, a tick of the watcher
-- changes nothing, however long the breaker has been open before: a probe that fails moves the
-- time on.
pub watch_waits_for_quiet :
    (threshold cooldown max_open at now : ℕ) (h : History) (m : HealthMonitor)
    → now < at + max_open
    → watch_breaker_open
        (record_all (Breaker.new threshold cooldown) ((false, at) ∷ h))
        max_open
        now
        m
      ≡ m
unfolding watch_breaker_open record_all record_result open_since
watch_waits_for_quiet threshold cooldown max_open at now h m young = ground arith
