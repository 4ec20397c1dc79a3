-- ===== src/IpLimiter/History.antt =====
-- An address that keeps coming is judged by one limiter, whatever others do.
use go_pkg.Common.{
  ℕ, ◌+◌, ◌≤◌, Bool, ◌≡◌, refl, ap, ◌∙◌, Bytes, str_eq, str_eq_iff, Option, none, some, List, [],
  ◌∷◌, if◌then◌else◌, Bool-cases, inl, inr, arith,
}
use go_pkg.Common.Table.{Table, get, put, get-put, get-nil}
use go_pkg.IpLimiter.{Entry, entry_ttl, find_or_new, prune, prune_when_due, allow, allow_all}

module _ {L : Type 0} (fresh : L) (limiter_allow : L → ℕ → Bool × L) where
  -- What the calls of one address make of one limiter, from its last state.
  abbrev pub or_fresh : Option (Entry L) → L
  or_fresh none = fresh
  or_fresh (some entry) = entry.limiter

  pub own_answers : Bytes → Option (Entry L) → List (Bytes × ℕ) → List Bool
  own_answers ip last [] = []
  own_answers ip last ((j, now) ∷ calls) =
      let answer = limiter_allow (or_fresh last) now in
      let own =
        answer.0 ∷ own_answers ip (some (record { limiter = answer.1; last_seen = now })) calls in
      let others = own_answers ip last calls in if str_eq j ip then own else others

  -- The answers that the calls of one address got.
  pub answers_of : Bytes → List (Bytes × ℕ) → List Bool → List Bool
  answers_of ip [] answers = []
  answers_of ip (call ∷ calls) [] = []
  answers_of ip ((j, now) ∷ calls) (answer ∷ answers) =
      let rest = answers_of ip calls answers in if str_eq j ip then answer ∷ rest else rest

  -- At no call has the address been quiet for more than the TTL.
  abbrev pub Steady : Bytes → Option ℕ → List (Bytes × ℕ) → Type 0
  Steady ip last [] = Unit {0}
  Steady ip last ((j, now) ∷ calls) =
      ((seen : ℕ) → last ≡ some seen → now ≤ seen + entry_ttl)
      × Steady ip (if str_eq j ip then some now else last) calls

  get-prune :
      (ip : Bytes) (now : ℕ) (m : Table (Entry L)) (entry : Entry L)
      → get ip m ≡ some entry
      → now ≤ entry.last_seen + entry_ttl
      → get ip (prune fresh limiter_allow now m) ≡ some entry
  unfolding get prune
  get-prune ip now [] entry h k = cc
  get-prune ip now ((j, x) ∷ m) entry h k = elim (Bool-cases (str_eq j ip)) [
    | inl own ↦ ground (arith, own, h, k)
    | inr other ↦ ground (arith, other, h, k, get-prune ip now m entry)
  ]

  get-prune-none :
      (ip : Bytes) (now : ℕ) (m : Table (Entry L))
      → get ip m ≡ none
      → get ip (prune fresh limiter_allow now m) ≡ none
  unfolding get prune
  get-prune-none ip now [] h = refl
  get-prune-none ip now ((j, x) ∷ m) h = elim (Bool-cases (str_eq j ip)) [
    | inl own ↦ absurd (ground (arith, own, h))
    | inr other ↦ ground (arith, other, h, get-prune-none ip now m)
  ]

  abbrev seen_of : Option (Entry L) → Option ℕ
  seen_of none = none
  seen_of (some entry) = some entry.last_seen

  -- The entry that is kept through a call of another address.
  kept_through :
      (ip : Bytes) (now : ℕ) (m : Table (Entry L)) (last : Option (Entry L))
      → get ip m ≡ last
      → ((seen : ℕ) → seen_of last ≡ some seen → now ≤ seen + entry_ttl)
      → get ip (prune_when_due fresh limiter_allow now m) ≡ last
  unfolding prune_when_due
  kept_through ip now m none h steady = ground (arith, h, get-prune-none ip now m h)
  kept_through ip now m (some entry) h steady =
      ground (arith, h, get-prune ip now m entry h (steady entry.last_seen refl))

  tracked :
      (ip : Bytes) (m : Table (Entry L)) (last : Option (Entry L)) (calls : List (Bytes × ℕ))
      → get ip m ≡ last
      → Steady ip (seen_of last) calls
      → answers_of ip calls (allow_all fresh limiter_allow m calls).0 ≡ own_answers ip last calls
  unfolding answers_of own_answers allow_all allow find_or_new
  tracked ip m last [] h steady = refl
  tracked ip m last ((j, now) ∷ calls) h steady =
      let limiter = find_or_new fresh limiter_allow j m in
      let before = put j (record { limiter = limiter; last_seen = now }) m in
      let kept = prune_when_due fresh limiter_allow now before in
      let answer = limiter_allow limiter now in
      let after = put j (record { limiter = answer.1; last_seen = now }) kept in
      elim (Bool-cases (str_eq j ip)) [
        | inl own ↦
            let same_ip = (str_eq_iff j ip).0 own in
            let found : limiter ≡ or_fresh last =
              ap (λ k. or_fresh (get k m)) same_ip ∙ ap or_fresh h in
            let stored : get ip after ≡ some (record { limiter = answer.1; last_seen = now }) =
              get-put ip j (record { limiter = answer.1; last_seen = now }) kept ∙ rw own refl in
            rw own (
              ap (◌∷◌ answer.0) (
                tracked ip after (some (record { limiter = answer.1; last_seen = now })) calls
                  stored (rw own at steady.1))
              ∙ ap
                  (λ l.
                    (limiter_allow l now).0
                    ∷ own_answers ip
                        (some (record { limiter = (limiter_allow l now).1; last_seen = now }))
                        calls)
                  found)
        | inr other ↦
            let passed : get ip before ≡ last =
              get-put ip j (record { limiter = limiter; last_seen = now }) m ∙ rw other h in
            let stored : get ip after ≡ last =
              get-put ip j (record { limiter = answer.1; last_seen = now }) kept
              ∙ rw other (kept_through ip now before last passed steady.0) in
            rw other (tracked ip after last calls stored (rw other at steady.1))
      ]

  -- An address that at no call, of any address, has been quiet for more than ten minutes since its
  -- own last one gets the answers of one limiter that sees its calls alone: neither the calls of
  -- others nor the pruning gives it a new limiter.
  pub allow_by_own_limiter :
      (ip : Bytes) (calls : List (Bytes × ℕ))
      → Steady ip none calls
      → answers_of ip calls (allow_all fresh limiter_allow [] calls).0 ≡ own_answers ip none calls
  allow_by_own_limiter ip calls steady = tracked ip [] none calls (get-nil {V = Entry L} ip) steady
