-- ===== src/Examples/Transport.antt =====
-- Queues, limiters, IDs and rows around the endpoints.
use go_pkg.Common.{
  not, ◌&&◌, ℕ, ◌+◌, ◌≡◌, ◌↔◌, refl, Bool, true, false, Bytes, bytes, is_empty, none, List, [], ◌∷◌,
  ◌++◌, arith, leb, ltb, str_eq,
}
use go_pkg.LongPolling
use go_pkg.LongPolling.{sends, polls, ticks, closes, expires}
use go_pkg.AnonInstance.{sign, verify, payload_of, dot, max_age}
use go_pkg.AnonInstance.Tokens.{IsStamped, has_byte, verify_iff, verify-mint}
use go_pkg.IpLimiter.{allow_all}
use go_pkg.IpLimiter.History.{answers_of, own_answers, allow_by_own_limiter}
use go_pkg.WorkerPool
use go_pkg.WorkerPool.{PoolEvent, submits, works}
use go_pkg.WorkerPool.Fate.{all_tasks, let_in, run_keeps_tasks}
use go_pkg.PendingRows
use go_pkg.PendingRows.{get_all, delete_up_to, session_key_of}
use go_pkg.PendingRows.Reading.{count_if, consumed_exactly}

-- Two polls at once; a message is left when the connection closes and goes with its key.
abbrev lp_events : List LongPolling.Event
lp_events =
    sends (bytes "a") true
    ∷ polls 0 true
    ∷ polls 1 true
    ∷ polls 0 true
    ∷ polls 1 true
    ∷ sends (bytes "b") true
    ∷ ticks true
    ∷ polls 1 true
    ∷ sends (bytes "c") true
    ∷ closes true
    ∷ expires
    ∷ []

-- A signature that depends on what it signs.
abbrev mac : Bytes → Bytes
mac payload = 65 ∷ payload

verify_iff_example : (verify mac 1000 (bytes "n:900.An:900") ≡ true) ↔ (
    (payload : Bytes) × (bytes "n:900.An:900" ≡ sign mac payload)
    × (has_byte dot payload ≡ false)
    × (is_empty payload ≡ false)
    × (is_empty (mac payload) ≡ false)
    × IsStamped 1000 payload)
verify_iff_example = verify_iff mac 1000 (bytes "n:900.An:900")

verify-mint_example :
    verify mac 1000 (sign mac (payload_of mac (bytes "n") 900)) ≡ leb 1000 (900 + max_age)
unfolding has_byte
verify-mint_example = verify-mint mac 900 1000 (bytes "n") refl refl refl (omega arith)

-- A limiter that allows two calls.
abbrev two_calls : ℕ → ℕ → Bool × ℕ
two_calls used now = (ltb used 2, used + 1)

abbrev calls : List (Bytes × ℕ)
calls = (bytes "x", 1) ∷ (bytes "y", 2) ∷ (bytes "x", 3) ∷ (bytes "x", 300) ∷ []

allow_by_own_limiter_example :
    answers_of 0 two_calls (bytes "x") calls (allow_all 0 two_calls [] calls).0
    ≡ own_answers 0 two_calls (bytes "x") none calls
unfolding str_eq
allow_by_own_limiter_example = allow_by_own_limiter 0 two_calls (bytes "x") calls (
  λ seen e. cc,
  (λ seen e. ground (arith, e), (λ seen e. ground (arith, e), (λ seen e. ground (arith, e), tt))),
)

abbrev pool_events : List PoolEvent
pool_events = submits 1 ∷ submits 2 ∷ submits 3 ∷ works ∷ PoolEvent.closes ∷ submits 4 ∷ works ∷ []

run_keeps_tasks_example :
    all_tasks (WorkerPool.run (WorkerPool.new 2) pool_events)
    ≡ all_tasks (WorkerPool.new 2) ++ let_in (WorkerPool.new 2) pool_events
run_keeps_tasks_example = run_keeps_tasks (WorkerPool.new 2) pool_events

abbrev row : Bytes → ℕ → Bytes → PendingRows.Row
row key at message = record {
  session_key = key;
  send_at = at;
  message = message;
  expires_at = at + 9;
}

abbrev stored : List PendingRows.Row
stored =
    row (bytes "ann:tab") 7 (bytes "two")
    ∷ row (bytes "bob:tab") 6 (bytes "his")
    ∷ row (bytes "ann:tab") 5 (bytes "one")
    ∷ []

consumed_exactly_example :
    count_if
      (λ r. true)
      (delete_up_to stored
        (bytes "ann")
        (bytes "tab")
        (get_all stored (bytes "ann") (bytes "tab")).1)
    ≡ count_if
        (λ r. not (str_eq r.session_key (session_key_of (bytes "ann") (bytes "tab"))) && true)
        stored
consumed_exactly_example = consumed_exactly (λ r. true) stored (bytes "ann") (bytes "tab")
