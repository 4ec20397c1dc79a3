-- ===== src/MsgHub/Pending.antt =====
-- The pending messages of one session: `Save`, `Consume` and `DeleteAllPendingMessage` of service.go
-- over the repository of core/repository/pending_message.go, whose databases are outside.
pub mod Kept
use go_pkg.Common.{
  ℕ, ◌≤◌, ◌≡◌, ◌↔◌, ◌⊎◌, Bool, true, false, Bytes, Option, none, some, List, [], ◌∷◌, map,
  if◌then◌else◌, ltb,
}
use mathlib.Core.List.{Memᴰ}

-- A stored message with its `SendAt`.
abbrev pub Row : Type 0
Row = ℕ × Bytes

-- The operations of the repository on the rows of one session, and what its comments promise:
-- `GetAll` returns every message and the greatest `SendAt`, `DeleteUpTo` deletes the rows up to a
-- `SendAt` and no other. `Create` adds a row where the session has none with this `SendAt`; where it has,
-- PostgreSQL keeps the old row and DynamoDB the new one, and nothing is promised here.
pub record PendingMessageRepo (S : Type 0) : Type 1 where
  pub create : S → ℕ → Bytes → S
  pub get_all : S → List Row × ℕ
  pub delete_up_to : S → ℕ → S
  pub delete_all : S → S
  pub Holds : S → Row → Type 0
  pub get_all-Holds : (s : S) (r : Row) → Memᴰ r (get_all s).0 ↔ Holds s r
  pub max_send_at : (s : S) (r : Row) → Holds s r → r.0 ≤ (get_all s).1
  pub create-Holds :
      (s : S) (at : ℕ) (msg : Bytes) (r : Row)
      → ((m : Bytes) → Holds s (at, m) → ⊥)
      → Holds (create s at msg) r ↔ (Holds s r ⊎ (r ≡ (at, msg)))
  pub delete_up_to-Holds :
      (s : S) (n : ℕ) (r : Row) → Holds (delete_up_to s n) r ↔ (Holds s r × (ltb n r.0 ≡ true))
  pub delete_all-Holds : (s : S) (r : Row) → (Holds (delete_all s) r → ⊥)

module _ {S : Type 0} (repo : PendingMessageRepo S) where
  -- `ok` tells whether the repository's call succeeds; a failed one changes nothing.
  unfoldable pub save : S → ℕ → Bytes → Bool → S × Bool
  save s now msg ok = if ok then (repo.create s now msg, true) else (s, false)

  -- The first half of `Consume`: what it has read, or `none` where it returns.
  unfoldable pub consume_read : S → Bool → Option (List Row × ℕ)
  consume_read s ok =
      if ok then elim ((repo.get_all s).0) [ [] ↦ none | r ∷ rs ↦ some (repo.get_all s) ] else none

  -- The second half. A failed delete is only logged.
  unfoldable pub consume_delete : S → ℕ → Bool → S
  consume_delete s max_at ok = if ok then repo.delete_up_to s max_at else s

  unfoldable pub delete_all_pending : S → Bool → S
  delete_all_pending s ok = if ok then repo.delete_all s else s

  -- Other containers save between the two halves.
  unfoldable pub saves_all : S → List Row → S
  saves_all s [] = s
  saves_all s (r ∷ rs) = saves_all (repo.create s r.0 r.1) rs
