-- ===== src/Delivery/Saving.antt =====
-- The task that saves a message which could not be sent: `saveMessageHub` of 99.helper.go.
use go_pkg.Common.{
  ℕ, zero, suc, ◌+◌, ◌*◌, ◌≤◌, ◌<◌, ◌≡◌, ◌↔◌, ◌⊎◌, inl, inr, refl, subst, min, Bool, true, false,
  List, [], ◌∷◌, length, arith,
}
use go_pkg.Domain.{Status, connected, temp_disconnected, transferring}

abbrev pub max_retry_number : ℕ
max_retry_number = 5

-- What the repository answers to one attempt.
pub data Found : Type 0 where
  store_error no_row : Found
  row : Status → Found

pub data Fate : Type 0 where
  dropped_at_max dropped_on_error dropped_without_row saved : Fate

-- The wait before the next attempt, in milliseconds.
abbrev pub delay : ℕ → ℕ
delay retry_number = min ((retry_number + 1) * 750) 3000

-- `saveMessageHub` from a retry number on, with as many attempts left: the waits and the fate.
-- `saved` is the call of `Save`.
unfoldable pub save_message_hub : (ℕ → Found) → ℕ → ℕ → List ℕ × Fate
save_message_hub answer zero retry_number = ([], dropped_at_max)
save_message_hub answer (suc left) retry_number =
    let rest = save_message_hub answer left (retry_number + 1) in
    elim (answer retry_number) [
      | store_error ↦ ([], dropped_on_error)
      | no_row ↦ ([], dropped_without_row)
      | row connected ↦ (delay retry_number ∷ rest.0, rest.1)
      | row temp_disconnected ↦ ([], saved)
      | row transferring ↦ ([], saved)
    ]

unfoldable pub sum : List ℕ → ℕ
sum [] = 0
sum (n ∷ ns) = n + sum ns

-- A row of a session that is not connected.
abbrev pub is_away : Found → Bool
is_away store_error = false
is_away no_row = false
is_away (row connected) = false
is_away (row temp_disconnected) = true
is_away (row transferring) = true

-- The session is found away, after being found connected in each of the attempts before.
pub record IsFoundAway (answer : ℕ → Found) (from : ℕ) (n : ℕ) : Type 0 where
  pub connected_before : (i : ℕ) → i < n → answer (from + i) ≡ row connected
  pub away : is_away (answer (from + n)) ≡ true

Found-cases :
    (f : Found) → (f ≡ row connected) ⊎ (f ≡ store_error) ⊎ (f ≡ no_row) ⊎ (is_away f ≡ true)
Found-cases store_error = inr (inl refl)
Found-cases no_row = inr (inr (inl refl))
Found-cases (row connected) = inl refl
Found-cases (row temp_disconnected) = inr (inr (inr refl))
Found-cases (row transferring) = inr (inr (inr refl))

connected_from :
    (answer : ℕ → Found) (r n : ℕ)
    → answer r ≡ row connected
    → ((i : ℕ) → i < n → answer (r + 1 + i) ≡ row connected)
    → (i : ℕ) → i < n + 1
    → answer (r + i) ≡ row connected
connected_from answer r n e s zero h = subst (λ k. answer k ≡ row connected) (omega arith) e
connected_from answer r n e s (suc i) h =
    subst (λ k. answer k ≡ row connected) (omega arith) (s i (omega arith))

later :
    (answer : ℕ → Found) (r n : ℕ)
    → answer r ≡ row connected
    → IsFoundAway answer (r + 1) n
    → IsFoundAway answer r (n + 1)
later answer r n e s = record {
  connected_before = connected_from answer r n e s.connected_before;
  away = subst (λ k. is_away (answer k) ≡ true) (omega arith) s.away;
}

sooner :
    (answer : ℕ → Found) (r n : ℕ) → IsFoundAway answer r (suc n) → IsFoundAway answer (r + 1) n
sooner answer r n s = record {
  connected_before = λ i h.
      subst (λ k. answer k ≡ row connected) (omega arith)
        (s.connected_before (i + 1) (omega arith));
  away = subst (λ k. is_away (answer k) ≡ true) (omega arith) s.away;
}

at_start : (answer : ℕ → Found) (r : ℕ) → is_away (answer r) ≡ true → IsFoundAway answer r 0
at_start answer r e = record {
  connected_before = λ i h. absurd (omega arith);
  away = subst (λ k. is_away (answer k) ≡ true) (omega arith) e;
}

waits_bounded :
    (answer : ℕ → Found) (left r : ℕ) → length ((save_message_hub answer left r).0) ≤ left
unfolding save_message_hub
waits_bounded answer zero r = omega arith
waits_bounded answer (suc left) r = ground (arith, waits_bounded answer left (r + 1))

sum_bounded : (answer : ℕ → Found) → sum ((save_message_hub answer 5 0).0) ≤ 10500
unfolding save_message_hub sum
sum_bounded answer = ground arith

saved→away :
    (answer : ℕ → Found) (left r : ℕ)
    → (save_message_hub answer left r).1 ≡ saved
    → (n : ℕ) × (n < left) × IsFoundAway answer r n
unfolding save_message_hub
saved→away answer zero r h = cc
saved→away answer (suc left) r h = elim (Found-cases (answer r)) [
  | inl e ↦
      let (n, below, s) = saved→away answer left (r + 1) (rw (e, save_message_hub) at h) in
      (n + 1, omega arith, later answer r n e s)
  | inr (inl e) ↦ absurd (ground (arith, e, h))
  | inr (inr (inl e)) ↦ absurd (ground (arith, e, h))
  | inr (inr (inr e)) ↦ (0, omega arith, at_start answer r e)
]

first_connected :
    (answer : ℕ → Found) (r n : ℕ) → IsFoundAway answer r (suc n) → answer r ≡ row connected
first_connected answer r n s =
    subst (λ k. answer k ≡ row connected) (omega arith) (s.connected_before 0 (omega arith))

away→saved :
    (answer : ℕ → Found) (left r n : ℕ)
    → n < left
    → IsFoundAway answer r n
    → (save_message_hub answer left r).1 ≡ saved
unfolding save_message_hub
away→saved answer zero r n h s = absurd (omega arith)
away→saved answer (suc left) r zero h s =
    let away : is_away (answer r) ≡ true =
      subst (λ k. is_away (answer k) ≡ true) (omega arith) s.away in
    ground (arith, away)
away→saved answer (suc left) r (suc n) h s =
    rw (first_connected answer r n s, save_message_hub)
      (away→saved answer left (r + 1) n (omega arith) (sooner answer r n s))

-- A message that could not be sent comes to `Save` if and only if one of the first five attempts
-- finds the session away and all attempts before it find it connected. The task waits at most five
-- times, and at most 10.5 seconds in all.
pub saved_iff_away :
    (answer : ℕ → Found)
    → let (waits, fate) = save_message_hub answer max_retry_number 0 in
      ((fate ≡ saved) ↔ ((n : ℕ) × (n < max_retry_number) × IsFoundAway answer 0 n))
      × (length waits ≤ max_retry_number)
      × (sum waits ≤ 10500)
saved_iff_away answer = (
  (saved→away answer 5 0, λ h. away→saved answer 5 0 h.0 h.1 h.2),
  waits_bounded answer 5 0,
  sum_bounded answer,
)
