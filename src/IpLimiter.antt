-- ===== src/IpLimiter.antt =====
-- The limiter per client address: core/service/websocket/mediator/delivery/ip_rate_limiter.go. A limiter of
-- golang.org/x/time/rate is a state of the section's type, with its `NewLimiter` and `Allow`. Times are
-- seconds and do not go back. Each `Allow` runs under the mutex, so it is one step.
pub mod History
use go_pkg.Common.{
  ℕ, ◌+◌, ◌-◌, ◌%◌, Bool, Bytes, Option, none, some, List, [], ◌∷◌, if◌then◌else◌, ltb, ◌==◌,
  length,
}
use go_pkg.Common.Table.{Table, get, put}

-- `ipLimiterEntryTTL`, ten minutes.
abbrev pub entry_ttl : ℕ
entry_ttl = 600

pub record Entry (L : Type 0) : Type 0 where
  pub limiter : L
  pub last_seen : ℕ

module _ {L : Type 0} (fresh : L) (limiter_allow : L → ℕ → Bool × L) where
  unfoldable pub find_or_new : Bytes → Table (Entry L) → L
  find_or_new ip limiters = elim (get ip limiters) [ none ↦ fresh | some entry ↦ entry.limiter ]

  -- The loop over all entries.
  unfoldable pub prune : ℕ → Table (Entry L) → Table (Entry L)
  prune now [] = []
  prune now ((ip, entry) ∷ limiters) =
      let rest = prune now limiters in
      if ltb entry_ttl (now - entry.last_seen) then rest else (ip, entry) ∷ rest

  unfoldable pub prune_when_due : ℕ → Table (Entry L) → Table (Entry L)
  unfolding prune
  prune_when_due now limiters = if length limiters % 256 == 0 then prune now limiters else limiters

  -- The limiter is changed by its `Allow` after the pruning, in which its own entry stays.
  unfoldable pub allow : Table (Entry L) → Bytes → ℕ → Bool × Table (Entry L)
  unfolding find_or_new prune_when_due
  allow limiters ip now =
      let limiter = find_or_new ip limiters in
      let kept =
        prune_when_due now (put ip (record { limiter = limiter; last_seen = now }) limiters) in
      let answer = limiter_allow limiter now in
      (answer.0, put ip (record { limiter = answer.1; last_seen = now }) kept)

  unfoldable pub allow_all : Table (Entry L) → List (Bytes × ℕ) → List Bool × Table (Entry L)
  allow_all limiters [] = ([], limiters)
  allow_all limiters ((ip, now) ∷ calls) =
      let first = allow limiters ip now in
      let rest = allow_all first.1 calls in (first.0 ∷ rest.0, rest.1)
