-- ===== src/MsgHub/Pending/Kept.antt =====
-- A reconnect, and the saves that race with it.
use mathlib.Core.List.{Memᴰ}
use go_pkg.Common.{
  ℕ, ◌≤◌, ◌<◌, ◌≡◌, ◌↔◌, ◌⊎◌, inl, inr, refl, ap, Bytes, sym, subst, Bool, true, false, some, List,
  [], ◌∷◌, ltb, All, lt→ltb, arith,
}
use go_pkg.MsgHub.Pending.{Row, PendingMessageRepo, consume_read, consume_delete, saves_all}

not_above : (n m : ℕ) → m ≤ n → ltb n m ≡ true → ⊥
not_above n m h e = ground (arith, h, e)

true-ne-false : true ≡ false → ⊥
true-ne-false h = cc

-- No two rows have the same `SendAt`.
abbrev pub IsDistinct : List Row → Type 0
IsDistinct [] = Unit {0}
IsDistinct (r ∷ rs) = All (λ q. q.0 ≡ r.0 → ⊥) rs × IsDistinct rs

module _ {S : Type 0} (repo : PendingMessageRepo S) where
  -- The session has no row with the `SendAt` of one of these.
  abbrev AllNew : S → List Row → Type 0
  AllNew s rs = All (λ q. (m : Bytes) → repo.Holds s (q.0, m) → ⊥) rs

  still_new :
      (s : S) (q : Row) (rs : List Row)
      → ((m : Bytes) → repo.Holds s (q.0, m) → ⊥)
      → All (λ r. r.0 ≡ q.0 → ⊥) rs
      → AllNew s rs
      → AllNew (repo.create s q.0 q.1) rs
  still_new s q [] free other new = tt
  still_new s q (r ∷ rs) free other new = (
    λ m h. elim ((repo.create-Holds s q.0 q.1 (r.0, m) free).0 h) [
      | inl old ↦ new.0 m old
      | inr same ↦ other.0 (ap (λ x. x.0) same)
    ],
    still_new s q rs free other.1 new.1,
  )

  new_if_later :
      (s : S) (n : ℕ) (rs : List Row)
      → ((r : Row) → repo.Holds s r → r.0 ≤ n)
      → All (λ q. n < q.0) rs
      → AllNew s rs
  new_if_later s n [] below late = tt
  new_if_later s n (r ∷ rs) below late =
      (λ m h. absurd (omega (arith, below (r.0, m) h, late.0)), new_if_later s n rs below late.1)

  saves_all-Holds :
      (s : S) (rs : List Row) (r : Row)
      → AllNew s rs
      → IsDistinct rs
      → repo.Holds (saves_all repo s rs) r ↔ (repo.Holds s r ⊎ Memᴰ r rs)
  unfolding saves_all
  saves_all-Holds s [] r new distinct = (λ h. inl h, λ h. elim h [ inl k ↦ k | inr k ↦ elim k [ ] ])
  saves_all-Holds s (q ∷ rs) r new distinct =
      let (to, from) =
        saves_all-Holds (repo.create s q.0 q.1) rs r (still_new s q rs new.0 distinct.0 new.1)
          distinct.1 in
      let (split, join) = repo.create-Holds s q.0 q.1 r new.0 in
      (
        λ h. elim (to h) [
          | inl k ↦ elim (split k) [ inl old ↦ inl old | inr same ↦ inr (Memᴰ.head same) ]
          | inr k ↦ inr (Memᴰ.tail k)
        ],
        λ h. elim h [
          | inl old ↦ from (inl (join (inl old)))
          | inr (Memᴰ.head e) ↦ from (inl (join (inr e)))
          | inr (Memᴰ.tail k) ↦ from (inr k)
        ],
      )

  read_all :
      (s : S) (got : List Row) (n : ℕ)
      → consume_read repo s true ≡ some (got, n)
      → (repo.get_all s ≡ (got, n))
  unfolding consume_read
  read_all s got n h = ground (arith, h)

  above_of_mem : (n : ℕ) (rs : List Row) (r : Row) → All (λ q. n < q.0) rs → Memᴰ r rs → n < r.0
  above_of_mem n [] r h m = elim m [ ]
  above_of_mem n (q ∷ rs) r h (Memᴰ.head e) = subst (λ x. n < x.0) (sym e) h.0
  above_of_mem n (q ∷ rs) r h (Memᴰ.tail m) = above_of_mem n rs r h.1 m

  deleted_exact :
      (s : S) (got : List Row) (n : ℕ) (meanwhile : List Row) (r : Row)
      → repo.get_all s ≡ (got, n)
      → All (λ q. n < q.0) meanwhile
      → IsDistinct meanwhile
      → repo.Holds (repo.delete_up_to (saves_all repo s meanwhile) n) r ↔ Memᴰ r meanwhile
  deleted_exact s got n meanwhile r all late distinct =
      let below : (q : Row) → repo.Holds s q → q.0 ≤ n =
        λ q h. subst (λ p. q.0 ≤ p.1) all (repo.max_send_at s q h) in
      let (to, from) =
        saves_all-Holds s meanwhile r (new_if_later s n meanwhile below late) distinct in
      let (left, keep) = repo.delete_up_to-Holds (saves_all repo s meanwhile) n r in
      (
        λ h. elim (to (left h).0) [
          | inl old ↦ absurd (not_above n r.0 (below r old) (left h).1)
          | inr new ↦ new
        ],
        λ m. keep (from (inr m), lt→ltb n r.0 (above_of_mem n meanwhile r late m)),
      )

  -- `Consume` that reads, races with any saves whose `SendAt` is later than all that were read and no
  -- two of which have the same, and then deletes: exactly the messages stored before are returned, and exactly those saved meanwhile
  -- are stored afterwards, with the returned ones too if the delete fails. So no message is lost, and
  -- none is delivered twice unless the delete fails.
  pub consume_loses_nothing :
      (s : S) (got : List Row) (n : ℕ) (meanwhile : List Row) (delete_ok : Bool) (r : Row)
      → consume_read repo s true ≡ some (got, n)
      → All (λ q. n < q.0) meanwhile
      → IsDistinct meanwhile
      → (Memᴰ r got ↔ repo.Holds s r)
        × (repo.Holds (consume_delete repo (saves_all repo s meanwhile) n delete_ok) r
            ↔ (Memᴰ r meanwhile ⊎ ((delete_ok ≡ false) × Memᴰ r got)))
  unfolding consume_delete
  consume_loses_nothing s got n meanwhile true r read late distinct =
      let all = read_all s got n read in
      let (to, from) = deleted_exact s got n meanwhile r all late distinct in
      (
        subst (λ p. Memᴰ r p.0 ↔ repo.Holds s r) all (repo.get_all-Holds s r),
        (λ h. inl (to h), λ h. elim h [ inl m ↦ from m | inr k ↦ absurd (true-ne-false k.0) ]),
      )
  consume_loses_nothing s got n meanwhile false r read late distinct =
      let all = read_all s got n read in
      let returned : Memᴰ r got ↔ repo.Holds s r =
        subst (λ p. Memᴰ r p.0 ↔ repo.Holds s r) all (repo.get_all-Holds s r) in
      let below : (q : Row) → repo.Holds s q → q.0 ≤ n =
        λ q h. subst (λ p. q.0 ≤ p.1) all (repo.max_send_at s q h) in
      let (to, from) =
        saves_all-Holds s meanwhile r (new_if_later s n meanwhile below late) distinct in
      (
        returned,
        (
          λ h. elim (to h) [ inl old ↦ inr (refl, returned.1 old) | inr new ↦ inl new ],
          λ h. elim h [ inl m ↦ from (inr m) | inr k ↦ from (inl (returned.0 k.1)) ],
        ),
      )

  -- A message saved meanwhile whose `SendAt` is not later than all that were read, as by a container
  -- whose clock is behind, is deleted without having been returned.
  pub early_save_is_lost :
      (s : S) (got : List Row) (n : ℕ) (meanwhile : List Row) (r : Row)
      → consume_read repo s true ≡ some (got, n)
      → r.0 ≤ n
      → ¬ repo.Holds (consume_delete repo (saves_all repo s meanwhile) n true) r
  unfolding consume_delete
  early_save_is_lost s got n meanwhile r read early h =
      let (left, keep) = repo.delete_up_to-Holds (saves_all repo s meanwhile) n r in
      not_above n r.0 early (left h).1
