-- ===== src/ClientMessages/Window/Seen.antt =====
-- The two windows over a sequence of calls.
use go_pkg.Common.{
  ℕ, ◌+◌, ◌≤◌, ◌≡◌, refl, ◌∙◌, Bytes, Option, none, some, List, [], ◌∷◌, if◌then◌else◌, leb, str_eq,
  str_eq_iff, Bool-cases, inl, inr, arith,
}
use go_pkg.Common.Table.{Table, get, get-put}
use go_pkg.Common.Unique.{Unique, Unique-put}
use go_pkg.ClientMessages.Window.{msg_deduplicate_ttl, within, is_duplicate, clear_expired_entries}

-- A call of `isDuplicate`, or of the cleaning task.
pub data Call : Type 0 where
  asks : Bytes → ℕ → Call
  cleans : ℕ → Call

unfoldable pub at : Call → ℕ
at (asks key now) = now
at (cleans now) = now

unfoldable pub IsOrdered : ℕ → List Call → Type 0
IsOrdered from [] = Unit
IsOrdered from (call ∷ calls) = (from ≤ at call) × IsOrdered (at call) calls

unfoldable pub run : Table ℕ → List Call → Table ℕ
run entries [] = entries
run entries (asks key now ∷ calls) = run (is_duplicate entries now key).1 calls
run entries (cleans now ∷ calls) = run (clear_expired_entries msg_deduplicate_ttl now entries) calls

-- The time at which a key was last let through, by the calls alone.
unfoldable pub last_passed : Bytes → Option ℕ → List Call → Option ℕ
last_passed key t [] = t
last_passed key t (asks k now ∷ calls) =
    last_passed key
      (if str_eq k key then if within msg_deduplicate_ttl now t then t else some now else t) calls
last_passed key t (cleans now ∷ calls) = last_passed key t calls

-- A cleaned table answers as it did before, from then on.
within-clear :
    (key : Bytes) (ttl now later : ℕ) (entries : Table ℕ)
    → Unique entries
    → now ≤ later
    → within ttl later (get key (clear_expired_entries ttl now entries))
      ≡ within ttl later (get key entries)
unfolding clear_expired_entries get within
within-clear key ttl now later [] u h = refl
within-clear key ttl now later ((k, t) ∷ entries) u h =
    ground (arith, within-clear key ttl now later entries u.1 h, str_eq_iff k key, u.0, h)

get-clear_none :
    (key : Bytes) (ttl now : ℕ) (entries : Table ℕ)
    → get key entries ≡ none
    → get key (clear_expired_entries ttl now entries) ≡ none
unfolding clear_expired_entries get
get-clear_none key ttl now [] h = h
get-clear_none key ttl now ((k, t) ∷ entries) h =
    ground (arith, get-clear_none key ttl now entries, h)

Unique-clear :
    (ttl now : ℕ) (entries : Table ℕ)
    → Unique entries
    → Unique (clear_expired_entries ttl now entries)
unfolding clear_expired_entries
Unique-clear ttl now [] u = tt
Unique-clear ttl now ((k, t) ∷ entries) u = elim (Bool-cases (leb (t + ttl) now)) [
  | inl e ↦ rw e (Unique-clear ttl now entries u.1)
  | inr e ↦ rw e (get-clear_none k ttl now entries u.0, Unique-clear ttl now entries u.1)
]

Unique-is_duplicate :
    (entries : Table ℕ) (now : ℕ) (key : Bytes)
    → Unique entries
    → Unique ((is_duplicate entries now key).1)
unfolding is_duplicate
Unique-is_duplicate entries now key u =
    elim (Bool-cases (within msg_deduplicate_ttl now (get key entries))) [
      | inl e ↦ rw e u
      | inr e ↦ rw e (Unique-put key now entries u)
    ]

-- The same answers from a time on.
Agrees : ℕ → Option ℕ → Option ℕ → Type 0
Agrees from s t =
    (later : ℕ)
    → from ≤ later
    → within msg_deduplicate_ttl later s ≡ within msg_deduplicate_ttl later t

asks-Agrees :
    (key k : Bytes) (from now : ℕ) (entries : Table ℕ) (t : Option ℕ)
    → from ≤ now
    → Agrees from (get key entries) t
    → Agrees now
        (get key ((is_duplicate entries now k).1))
        (if str_eq k key then if within msg_deduplicate_ttl now t then t else some now else t)
unfolding is_duplicate Agrees
asks-Agrees key k from now entries t h a later later_h =
    ground (arith, a now h, a later (omega arith), get-put key k now entries, str_eq_iff k key)

cleans-Agrees :
    (key : Bytes) (from now : ℕ) (entries : Table ℕ) (t : Option ℕ)
    → from ≤ now
    → Unique entries
    → Agrees from (get key entries) t
    → Agrees now (get key (clear_expired_entries msg_deduplicate_ttl now entries)) t
unfolding Agrees
cleans-Agrees key from now entries t h u a later later_h =
    within-clear key msg_deduplicate_ttl now later entries u later_h ∙ a later (omega arith)

start : (key : Bytes) → Agrees 0 (get key []) none
unfolding Agrees get
start key later h = refl

-- The time of the last call.
unfoldable pub end : ℕ → List Call → ℕ
end from [] = from
end from (call ∷ calls) = end (at call) calls

run-Agrees :
    (key : Bytes) (from : ℕ) (entries : Table ℕ) (t : Option ℕ) (calls : List Call)
    → IsOrdered from calls
    → Unique entries
    → Agrees from (get key entries) t
    → Agrees (end from calls) (get key (run entries calls)) (last_passed key t calls)
unfolding IsOrdered end run last_passed at
run-Agrees key from entries t [] o u a = a
run-Agrees key from entries t (asks k now ∷ calls) o u a =
    run-Agrees key now ((is_duplicate entries now k).1)
      (if str_eq k key then if within msg_deduplicate_ttl now t then t else some now else t) calls
      o.1 (Unique-is_duplicate entries now k u) (asks-Agrees key k from now entries t o.0 a)
run-Agrees key from entries t (cleans now ∷ calls) o u a =
    run-Agrees key now (clear_expired_entries msg_deduplicate_ttl now entries) t calls o.1
      (Unique-clear msg_deduplicate_ttl now entries u)
      (cleans-Agrees key from now entries t o.0 u a)

-- After any calls, in the order of their times, `isDuplicate` answers true if and only if the key
-- was last let through less than the TTL ago. The cleaning task, which may run in between, changes
-- no answer.
pub duplicate_by_history :
    (key : Bytes) (calls : List Call) (now : ℕ)
    → IsOrdered 0 calls
    → end 0 calls ≤ now
    → (is_duplicate (run [] calls) now key).0
      ≡ within msg_deduplicate_ttl now (last_passed key none calls)
unfolding is_duplicate Agrees
duplicate_by_history key calls now o h =
    let a = run-Agrees key 0 [] none calls o tt (start key) now h in ground (arith, a)
