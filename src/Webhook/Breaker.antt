-- ===== src/Webhook/Breaker.antt =====
-- The circuit breaker of server/webhook/sync.go. Times are numbers, and a test `a.Sub(b) >= d` is
-- `b + d <= a`. Each method runs under the mutex.
use go_pkg.Common.{
  ℕ, suc, ◌+◌, ◌≤◌, ◌<◌, ◌≡◌, refl, ◌⊎◌, ◌↔◌, Bool, true, false, Option, none, some, List, [], ◌∷◌,
  if◌then◌else◌, ltb, leb, arith,
}

pub record CircuitBreaker : Type 0 where
  pub threshold : ℕ
  pub cooldown : ℕ
  pub failures : ℕ
  pub opened_at : ℕ

abbrev pub new : ℕ → ℕ → CircuitBreaker
new threshold cooldown = record {
  threshold = threshold;
  cooldown = cooldown;
  failures = 0;
  opened_at = 0;
}

unfoldable pub allow : CircuitBreaker → ℕ → Bool
allow b now = if ltb b.failures b.threshold then true else leb (b.opened_at + b.cooldown) now

-- `Record`, with the time that it reads.
unfoldable pub record_result : CircuitBreaker → Bool → ℕ → CircuitBreaker
record_result b success now =
    if success
    then record b { failures = 0 }
    else (let c = record b { failures = b.failures + 1 } in
        if leb c.threshold c.failures then record c { opened_at = now } else c)

unfoldable pub open_since : CircuitBreaker → Option ℕ
open_since b = if ltb b.failures b.threshold then none else some b.opened_at

-- Results recorded one after the other, the latest first in the list.
abbrev pub History : Type 0
History = List (Bool × ℕ)

unfoldable pub record_all : CircuitBreaker → History → CircuitBreaker
record_all b [] = b
record_all b ((success, now) ∷ earlier) = record_result (record_all b earlier) success now

-- The failures since the last success.
unfoldable pub streak : History → ℕ
streak [] = 0
streak ((true, now) ∷ earlier) = 0
streak ((false, now) ∷ earlier) = suc (streak earlier)

pub record Tracks (b : CircuitBreaker) (threshold cooldown : ℕ) (h : History) : Type 0 where
  pub same_threshold : b.threshold ≡ threshold
  pub same_cooldown : b.cooldown ≡ cooldown
  pub counts : b.failures ≡ streak h

record_all-Tracks :
    (threshold cooldown : ℕ) (h : History)
    → Tracks (record_all (new threshold cooldown) h) threshold cooldown h
unfolding record_all streak record_result
record_all-Tracks threshold cooldown [] = record {
  same_threshold = refl;
  same_cooldown = refl;
  counts = refl;
}
record_all-Tracks threshold cooldown ((true, now) ∷ h) =
    let t = record_all-Tracks threshold cooldown h in ground (arith, t)
record_all-Tracks threshold cooldown ((false, now) ∷ h) =
    let t = record_all-Tracks threshold cooldown h in ground (arith, t)

-- After a failure that was recorded at time `at`, whatever was recorded before it: a call passes
-- if and only if fewer than `threshold` failures have come in a row, or `cooldown` has gone by
-- since `at`.
pub allow_by_history :
    (threshold cooldown at now : ℕ) (h : History)
    → let b = record_all (new threshold cooldown) ((false, at) ∷ h) in
      (allow b now ≡ true) ↔ ((streak ((false, at) ∷ h) < threshold) ⊎ (at + cooldown ≤ now))
unfolding record_all allow streak record_result
allow_by_history threshold cooldown at now h =
    let t = record_all-Tracks threshold cooldown h in
    (λ e. ground (arith, t), λ e. ground (arith, t))

-- One success closes the breaker, whatever came before.
pub success_closes :
    (threshold cooldown at now : ℕ) (h : History)
    → 0 < threshold
    → let b = record_all (new threshold cooldown) ((true, at) ∷ h) in
      (allow b now ≡ true) × (open_since b ≡ none)
unfolding record_all allow open_since record_result
success_closes threshold cooldown at now h pos =
    let t = record_all-Tracks threshold cooldown h in ground (arith, t)

-- `OpenSince` gives the time of the latest failure, also where the breaker opened long before it:
-- each failed probe moves the time on.
pub open_since_latest :
    (threshold cooldown at : ℕ) (h : History)
    → threshold ≤ streak ((false, at) ∷ h)
    → open_since (record_all (new threshold cooldown) ((false, at) ∷ h)) ≡ some at
unfolding record_all open_since streak record_result
open_since_latest threshold cooldown at h open_now =
    let t = record_all-Tracks threshold cooldown h in ground (arith, t)
