-- ===== src/EnvConfig/Thresholds.antt =====
-- Which configurations of the worker pool are refused.
use go_pkg.Common.{◌↔◌, true, false, not, ◌≡◌, refl, ap, sym, ◌∙◌, none, arith}
use go_pkg.Common.Integers.{ℤ, pos, negsuc, is_positive, is_negative, lez}
use go_pkg.EnvConfig.{
  WorkerPoolConfig, or_int, quarter, at_least_one, times, restore_order, default_worker_pool,
}
use go_pkg.EnvConfig.Validation.{check_worker_pool}

positive_at_least : (x : ℤ) → is_positive (at_least_one x) ≡ true
positive_at_least x = ground arith

positive-or_int : (d x : ℤ) → is_positive d ≡ true → is_positive (or_int d x) ≡ not (is_negative x)
unfolding or_int
positive-or_int d (pos n) h = ground (arith, h)
positive-or_int d (negsuc n) h = refl

negative-or_int : (d x : ℤ) → is_negative d ≡ false → is_negative (or_int d x) ≡ is_negative x
unfolding or_int
negative-or_int d (pos n) h = ground (arith, h)
negative-or_int d (negsuc n) h = refl

negative-quarter : (b : ℤ) → is_positive b ≡ true → is_negative (quarter b) ≡ false
negative-quarter (pos n) h = refl
negative-quarter (negsuc n) h = cc

-- Lower thresholds that are too high are replaced by one below the upper.
order_restored :
    (w : WorkerPoolConfig)
    → is_positive w.upper_threshold ≡ true
    → (lez (restore_order w).upper_threshold (restore_order w).lower_threshold ≡ false)
      × (is_negative (restore_order w).lower_threshold ≡ is_negative w.lower_threshold)
unfolding restore_order lez
order_restored w h = ground arith

checks_pass :
    (w : WorkerPoolConfig)
    → (check_worker_pool w ≡ none) ↔ (
        (is_negative w.workers ≡ false)
        × (is_positive w.buffer ≡ true)
        × (is_positive w.upper_threshold ≡ true)
        × (is_negative w.lower_threshold ≡ false)
        × (lez w.upper_threshold w.lower_threshold ≡ false))
unfolding check_worker_pool
checks_pass w = (
  λ h. (
    ground (arith, h),
    ground (arith, h),
    ground (arith, h),
    ground (arith, h),
    ground (arith, h),
  ),
  λ (workers, buffer, upper, lower, order). ground (arith, workers, buffer, upper, lower, order),
)

restore_keeps :
    (v : WorkerPoolConfig)
    → ((restore_order v).buffer ≡ v.buffer)
      × ((restore_order v).upper_threshold ≡ v.upper_threshold)
unfolding restore_order
restore_keeps v = ground arith

workers-default : (w : WorkerPoolConfig) → (default_worker_pool w).workers ≡ w.workers
unfolding default_worker_pool restore_order
workers-default w = ground arith

-- What the defaults leave of the signs.
signs :
    (w : WorkerPoolConfig)
    → let w' = default_worker_pool w in
      (is_positive w'.buffer ≡ not (is_negative w.buffer))
      × (is_positive w'.upper_threshold ≡ not (is_negative w.upper_threshold))
      × (is_negative w.buffer ≡ false
          → is_negative w.upper_threshold ≡ false
          → (is_negative w'.lower_threshold ≡ is_negative w.lower_threshold)
            × (lez w'.upper_threshold w'.lower_threshold ≡ false))
unfolding default_worker_pool
signs w =
    let buffer = or_int (pos 4096) w.buffer in
    let v : WorkerPoolConfig = record w {
      buffer = buffer;
      upper_threshold = or_int (at_least_one (quarter (times 3 buffer))) w.upper_threshold;
      lower_threshold = or_int (quarter buffer) w.lower_threshold;
    } in
    let kept = restore_keeps v in
    let buffer_sign = positive-or_int (pos 4096) w.buffer refl in
    let upper_sign =
      positive-or_int (at_least_one (quarter (times 3 buffer))) w.upper_threshold
        (positive_at_least (quarter (times 3 buffer))) in
    (
      ap is_positive kept.0 ∙ buffer_sign,
      ap is_positive kept.1 ∙ upper_sign,
      λ some_buffer some_upper.
          let restored = order_restored v (upper_sign ∙ ap not some_upper) in
          (
            restored.1
                ∙ negative-or_int (quarter buffer) w.lower_threshold
                    (negative-quarter buffer (buffer_sign ∙ ap not some_buffer)),
            restored.0,
          ),
    )

-- After `loadDefault` the pool's configuration is refused exactly if one of its four numbers was negative.
-- So the defaults that a small buffer gives pass, and so do thresholds that were given in the wrong
-- order: the lower one is replaced, and the last check of `validate` never fails.
pub pool_valid_iff :
    (w : WorkerPoolConfig)
    → (check_worker_pool (default_worker_pool w) ≡ none) ↔ (
        (is_negative w.workers ≡ false)
        × (is_negative w.buffer ≡ false)
        × (is_negative w.upper_threshold ≡ false)
        × (is_negative w.lower_threshold ≡ false))
pool_valid_iff w =
    let s = signs w in
    let checks = checks_pass (default_worker_pool w) in
    let workers = workers-default w in
    (
      λ h.
          let c = checks.0 h in
          let some_buffer : is_negative w.buffer ≡ false = ground (arith, s.0, c.1) in
          let some_upper : is_negative w.upper_threshold ≡ false = ground (arith, s.1, c.2) in
          (
            sym (ap is_negative workers) ∙ c.0,
            some_buffer,
            some_upper,
            sym (s.2 some_buffer some_upper).0 ∙ c.3,
          ),
      λ (some_workers, some_buffer, some_upper, some_lower). checks.1 (
        ap is_negative workers ∙ some_workers,
        s.0 ∙ ap not some_buffer,
        s.1 ∙ ap not some_upper,
        (s.2 some_buffer some_upper).0 ∙ some_lower,
        (s.2 some_buffer some_upper).1,
      ),
    )
