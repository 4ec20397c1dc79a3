-- ===== src/Acks/Waiting.antt =====
-- What a goroutine in `WaitForAck` may conclude.
use go_pkg.Common.{
  ℕ, ◌<◌, ◌≡◌, ap, ◌∙◌, subst, Bool, true, false, none, some, List, [], ◌∷◌, ◌++◌, if◌then◌else◌,
  Bytes, str_eq, str_eq_sym, Bool-cases, Option-cases, inl, inr, arith,
}
use go_pkg.Common.Table.{get, put, del, get-put, get-del, get-put_self, get-del_self}
use go_pkg.Acks.{
  AckManager, member, close, create_ack, ack_prefix, resolve_ack, wait_for_ack, resolve_remote_ack,
  register_remote_ack, AckEvent, creates, resolves, resolves_remote, times_out, registers_remote,
  shuts_down, step, run,
}
use go_pkg.Acks.Channels.{above-not_member}
use go_pkg.Acks.Safety.{IsSound, resolved, resolve_ack_found, create_ack-IsSound, below_get}
use mathlib.Core.Option.{some-injective}

still_waits :
    (m : AckManager) (k : Bytes) (ch : ℕ)
    → member ch m.closed ≡ false
    → wait_for_ack m k ch false ≡ none
unfolding wait_for_ack
still_waits m k ch g = ground arith

woken :
    (m : AckManager) (k : Bytes) (ch : ℕ)
    → wait_for_ack (resolved m k ch) k ch false ≡ some (true, resolved m k ch)
unfolding wait_for_ack member
woken m k ch = ground arith

gone :
    (m : AckManager) (k : Bytes) (ch : ℕ)
    → resolve_ack (resolved m k ch) k ≡ some (false, resolved m k ch)
unfolding resolve_ack
gone m k ch = ground (arith, get-del_self k m.pending)

-- From a sound manager, a new ack keeps its waiter waiting until it is resolved, which succeeds
-- once: then the waiter returns true, and a second `ResolveAck` finds nothing.
pub resolve_ack-create_ack :
    (m : AckManager) (nano_id : Bytes)
    → IsSound m
    → let (k, ch, m1) = create_ack m nano_id in
      let m2 = resolved m1 k ch in
      (resolve_ack m1 k ≡ some (true, m2))
      × (wait_for_ack m1 k ch false ≡ none)
      × (wait_for_ack m2 k ch false ≡ some (true, m2))
      × (resolve_ack m2 k ≡ some (false, m2))
unfolding create_ack
resolve_ack-create_ack m nano_id h =
    let k = ack_prefix ++ nano_id in
    let (_, _, m1) = create_ack m nano_id in
    let e : get k (put k m.made m.pending) ≡ some m.made = get-put_self k m.made m.pending in
    (
      resolve_ack_found m1 k m.made (create_ack-IsSound m nano_id h) e,
      still_waits m1 k m.made (above-not_member m.made m.closed h.closed_made),
      woken m1 k m.made,
      gone m1 k m.made,
    )

-- After a timeout the ack is forgotten: a late `ResolveAck` finds nothing.
pub resolve_ack_late :
    (m m' : AckManager) (k : Bytes) (ch : ℕ) (acked : Bool)
    → wait_for_ack m k ch true ≡ some (acked, m')
    → (acked ≡ false) × (resolve_ack m' k ≡ some (false, m'))
unfolding wait_for_ack resolve_ack
resolve_ack_late m m' k ch acked e = ground (arith, get-del_self k m.pending)

-- The events that wake the waiter of ack `k`.
unfoldable pub wakes : Bytes → AckEvent → Bool
wakes k (creates nano_id) = false
wakes k (resolves j) = str_eq j k
wakes k (resolves_remote j) = false
wakes k (times_out j ch) = false
wakes k (registers_remote j source) = false
wakes k shuts_down = true

unfoldable pub none_wakes : Bytes → List AckEvent → Bool
none_wakes k [] = true
none_wakes k (e ∷ es) = if wakes k e then false else none_wakes k es

-- The channel is open, was made, and belongs to no other ack.
record IsHeld (m : AckManager) (k : Bytes) (ch : ℕ) : Type 0 where
  is_open : member ch m.closed ≡ false
  was_made : ch < m.made
  only : (j : Bytes) → get j m.pending ≡ some ch → str_eq j k ≡ true

resolves-IsHeld :
    (m : AckManager) (j k : Bytes) (ch : ℕ) {m' : AckManager}
    → IsHeld m k ch
    → str_eq j k ≡ false
    → step m (resolves j) ≡ some m'
    → IsHeld m' k ch
unfolding step resolve_ack close
resolves-IsHeld m j k ch h e s = elim (Option-cases (get j m.pending)) [
  | inl unknown ↦ subst (λ n. IsHeld n k ch) (ground arith) h
  | inr (c, known) ↦ elim (Bool-cases (member c m.closed)) [
    | inl shut ↦ absurd (ground arith)
    | inr fresh ↦
        subst (λ n. IsHeld n k ch) {x = resolved m j c} (ground arith)
          (record {
            is_open = not_woken c (λ same. clash (h.only j (known ∙ ap some same)));
            was_made = h.was_made;
            only = λ i g. h.only i (ground (arith, get-del i j m.pending));
          })
  ]
]
  where
    clash : str_eq j k ≡ true → ⊥
    clash t = cc

    not_woken : (c : ℕ) → (c ≡ ch → ⊥) → member ch (c ∷ m.closed) ≡ false
    not_woken c differ = unfold member in ground (arith, differ, h.is_open)

step-IsHeld :
    (m : AckManager) (x : AckEvent) (k : Bytes) (ch : ℕ) {m' : AckManager}
    → IsHeld m k ch
    → wakes k x ≡ false
    → step m x ≡ some m'
    → IsHeld m' k ch
unfolding step wakes create_ack wait_for_ack register_remote_ack resolve_remote_ack
step-IsHeld m (creates nano_id) k ch h e s =
    subst (λ n. IsHeld n k ch) (some-injective _ _ s)
      (record {
        is_open = h.is_open;
        was_made = omega (arith, h.was_made);
        only = λ j g.
            ground
              (arith, get-put j (ack_prefix ++ nano_id) m.made m.pending, h.only j, h.was_made);
      })
step-IsHeld m (resolves j) k ch h e s = resolves-IsHeld m j k ch h e s
step-IsHeld m (resolves_remote j) k ch h e s = elim (Option-cases (get j m.remote_acks)) [
  | inl unknown ↦ subst (λ n. IsHeld n k ch) (ground arith) h
  | inr (source, known) ↦
      subst (λ n. IsHeld n k ch) {x = record m { remote_acks = del j m.remote_acks }} (ground arith)
        (record { is_open = h.is_open; was_made = h.was_made; only = h.only })
]
step-IsHeld m (times_out j c) k ch h e s =
    subst (λ n. IsHeld n k ch) (some-injective _ _ s)
      (record {
        is_open = h.is_open;
        was_made = h.was_made;
        only = λ i g. h.only i (ground (arith, get-del i j m.pending));
      })
step-IsHeld m (registers_remote j source) k ch h e s =
    subst (λ n. IsHeld n k ch) (some-injective _ _ s)
      (record { is_open = h.is_open; was_made = h.was_made; only = h.only })
step-IsHeld m shuts_down k ch h e s = cc

run-IsHeld :
    (m : AckManager) (es : List AckEvent) (k : Bytes) (ch : ℕ) {m' : AckManager}
    → IsHeld m k ch
    → none_wakes k es ≡ true
    → run m es ≡ some m'
    → IsHeld m' k ch
unfolding run none_wakes
run-IsHeld m [] k ch h n r = subst (λ n. IsHeld n k ch) (some-injective _ _ r) h
run-IsHeld m (e ∷ es) k ch h n r = elim (Option-cases (step m e)) [
  | inl panics ↦ absurd (ground arith)
  | inr (m1, s) ↦
      run-IsHeld m1 es k ch (step-IsHeld m e k ch h (ground arith) s) (ground arith) (ground arith)
]

create_ack-IsHeld :
    (m : AckManager) (nano_id : Bytes)
    → IsSound m
    → let (k, ch, m1) = create_ack m nano_id in IsHeld m1 k ch
unfolding create_ack
create_ack-IsHeld m nano_id h = record {
  is_open = above-not_member m.made m.closed h.closed_made;
  was_made = omega arith;
  only = λ j g. ground (
    arith,
    get-put j (ack_prefix ++ nano_id) m.made m.pending,
    str_eq_sym j (ack_prefix ++ nano_id),
    below_get j m.made m.made m.pending h.pending_made,
  );
}

-- From a sound manager: after a new ack and any events none of which resolves this ack or shuts
-- the manager down, its waiter still waits and is not told that the message was acknowledged.
pub unresolved_waits :
    (m : AckManager) (nano_id : Bytes) (es : List AckEvent) (m' : AckManager)
    → IsSound m
    → let (k, ch, m1) = create_ack m nano_id in
      none_wakes k es ≡ true → run m1 es ≡ some m' → wait_for_ack m' k ch false ≡ none
unresolved_waits m nano_id es m' h n r =
    let (k, ch, m1) = create_ack m nano_id in
    still_waits m' k ch (run-IsHeld m1 es k ch (create_ack-IsHeld m nano_id h) n r).is_open
