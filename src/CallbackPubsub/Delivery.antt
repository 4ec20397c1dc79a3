-- ===== src/CallbackPubsub/Delivery.antt =====
-- What is handed to the broker, how long the queue is, and how often a warning is logged.
use go_pkg.Common.{
  Bool, ℕ, ◌+◌, ◌-◌, ◌≤◌, ◌<◌, ◌≡◌, refl, ap, sym, ◌∙◌, Bytes, List, [], ◌∷◌, ◌++◌, if◌then◌else◌,
  ltb, ◌==◌, length, length-append, Bool-cases, List-cases, inl, inr, arith,
}
use mathlib.Core.List.{append_assoc, append-nil}
use go_pkg.CallbackPubsub.{
  PubsubJob, PubsubTransport, new_pubsub_transport, job_of, has_room, queue_size, drop_log_interval,
  deliver, emit, log_drop_rate_limited, turn, shut_down, TransportEvent, emits, logs, turns,
  shuts_down, step, run,
}

-- The jobs that found room, in their order.
pub let_in : PubsubTransport → List TransportEvent → List PubsubJob
let_in t [] = []
let_in t (emits e p ∷ xs) =
    let rest = let_in (step t (emits e p)) xs in if has_room t then job_of t e p ∷ rest else rest
let_in t (logs last now ∷ xs) = let_in (step t (logs last now)) xs
let_in t (turns ok ∷ xs) = let_in (step t (turns ok)) xs
let_in t (shuts_down ∷ xs) = let_in (step t shuts_down) xs

pub jobs_of : List (PubsubJob × Bool) → List PubsubJob
jobs_of [] = []
jobs_of ((job, ok) ∷ ds) = job ∷ jobs_of ds

pub all_jobs : PubsubTransport → List PubsubJob
all_jobs t = jobs_of t.delivered ++ t.queue

jobs_of-append : (ds es : List (PubsubJob × Bool)) → jobs_of (ds ++ es) ≡ jobs_of ds ++ jobs_of es
unfolding jobs_of
jobs_of-append [] es = refl
jobs_of-append ((job, ok) ∷ ds) es = ap (◌∷◌ job) (jobs_of-append ds es)

-- Each time is later than the next by the interval at least.
abbrev pub IsSpaced : List ℕ → Type 0
IsSpaced [] = Unit {0}
IsSpaced (at ∷ []) = Unit {0}
IsSpaced (at ∷ before ∷ times) = (before + drop_log_interval ≤ at) × IsSpaced (before ∷ times)

abbrev latest : List ℕ → ℕ
latest [] = 0
latest (at ∷ times) = at

-- The time of the latest warning is the one that is stored.
abbrev IsKept : PubsubTransport → Type 0
IsKept t = (length t.queue ≤ queue_size) × (t.last_drop_log ≡ latest t.logged) × IsSpaced t.logged

all_jobs-emit :
    (t : PubsubTransport) (e p : Bytes) (later : List PubsubJob)
    → all_jobs (emit t e p) ++ later
      ≡ all_jobs t ++ (if has_room t then job_of t e p ∷ later else later)
unfolding all_jobs emit
all_jobs-emit t e p later = elim (Bool-cases (ltb (length t.queue) queue_size)) [
  | inl room ↦ rw room (
      ap (λ l. l ++ later) (sym (append_assoc (jobs_of t.delivered) t.queue (job_of t e p ∷ [])))
      ∙ append_assoc (jobs_of t.delivered ++ t.queue) (job_of t e p ∷ []) later)
  | inr full ↦ rw full refl
]

all_jobs-turn : (t : PubsubTransport) (ok : Bool) → all_jobs (turn t ok) ≡ all_jobs t
unfolding all_jobs turn deliver jobs_of
all_jobs-turn t ok = elim (Bool-cases t.stopped) [
  | inl stopped ↦ rw stopped refl
  | inr running ↦ elim (List-cases t.queue) [
    | inl empty ↦ ground (arith, running, empty)
    | inr (job, rest, e) ↦
        rw (running, e, turn)
          (ap (λ l. l ++ rest) (jobs_of-append t.delivered ((job, ok) ∷ []))
            ∙ append_assoc (jobs_of t.delivered) (job ∷ []) rest)
  ]
]

all_jobs-log :
    (t : PubsubTransport) (last now : ℕ) → all_jobs (log_drop_rate_limited t last now) ≡ all_jobs t
unfolding all_jobs log_drop_rate_limited
all_jobs-log t last now = ground arith

keeps_all :
    (t : PubsubTransport) (xs : List TransportEvent)
    → all_jobs (run t xs) ≡ all_jobs t ++ let_in t xs
unfolding run step let_in all_jobs
keeps_all t [] = sym (append-nil (all_jobs t))
keeps_all t (emits e p ∷ xs) =
    keeps_all (emit t e p) xs ∙ all_jobs-emit t e p (let_in (emit t e p) xs)
keeps_all t (logs last now ∷ xs) =
    let t' = log_drop_rate_limited t last now in
    keeps_all t' xs ∙ ap (λ l. l ++ let_in t' xs) (all_jobs-log t last now)
keeps_all t (turns ok ∷ xs) =
    keeps_all (turn t ok) xs ∙ ap (λ l. l ++ let_in (turn t ok) xs) (all_jobs-turn t ok)
keeps_all t (shuts_down ∷ xs) = keeps_all (shut_down t) xs

IsSpaced-more :
    (times : List ℕ) (now : ℕ)
    → latest times + drop_log_interval ≤ now
    → IsSpaced times
    → IsSpaced (now ∷ times)
IsSpaced-more [] now h s = tt
IsSpaced-more (at ∷ times) now h s = (h, s)

emit-IsKept : (t : PubsubTransport) (e p : Bytes) → IsKept t → IsKept (emit t e p)
unfolding emit
emit-IsKept t e p k = elim (Bool-cases (ltb (length t.queue) queue_size)) [
  | inl room ↦
      let below : length t.queue < queue_size = ground (arith, room) in
      rw room (omega (arith, length-append t.queue (job_of t e p ∷ []), below), k.1, k.2)
  | inr full ↦ rw full k
]

log-IsKept :
    (t : PubsubTransport) (last now : ℕ) → IsKept t → IsKept (log_drop_rate_limited t last now)
unfolding log_drop_rate_limited
log-IsKept t last now k = elim (Bool-cases (ltb (now - last) drop_log_interval)) [
  | inl early ↦ rw early k
  | inr due ↦ elim (Bool-cases (t.last_drop_log == last)) [
    | inl same ↦
        rw (due, same) (k.0, refl, IsSpaced-more t.logged now (ground (arith, due, same, k.1)) k.2)
    | inr other ↦ rw (due, other) k
  ]
]

turn-IsKept : (t : PubsubTransport) (ok : Bool) → IsKept t → IsKept (turn t ok)
unfolding turn deliver
turn-IsKept t ok k = elim (Bool-cases t.stopped) [
  | inl stopped ↦ rw stopped k
  | inr running ↦ elim (List-cases t.queue) [
    | inl empty ↦ elim (Bool-cases t.closed) [
      | inl closed ↦ rw (running, empty, closed, turn) (k.0, k.1, k.2)
      | inr still_open ↦ rw (running, empty, still_open, turn) k
    ]
    | inr (job, rest, e) ↦
        rw (running, e, turn) (omega (arith, k.0, ap (length {A = PubsubJob}) e), k.1, k.2)
  ]
]

run-IsKept : (t : PubsubTransport) (xs : List TransportEvent) → IsKept t → IsKept (run t xs)
unfolding run step shut_down
run-IsKept t [] k = k
run-IsKept t (emits e p ∷ xs) k = run-IsKept (emit t e p) xs (emit-IsKept t e p k)
run-IsKept t (logs last now ∷ xs) k =
    run-IsKept (log_drop_rate_limited t last now) xs (log-IsKept t last now k)
run-IsKept t (turns ok ∷ xs) k = run-IsKept (turn t ok) xs (turn-IsKept t ok k)
run-IsKept t (shuts_down ∷ xs) k = run-IsKept (shut_down t) xs k

-- From a new transport, for every interleaving and whatever the broker answers: what was handed to the
-- broker, each job once, and what waits are the events that found room, in the order in which they were
-- emitted; an event whose `Publish` failed is among those handed over and is not tried again. At most
-- 1024 wait, and any two warnings about dropped events in a row are five seconds apart or more, however
-- many callers drop at once.
pub handed_over_in_order :
    (subject_prefix : Bytes) (xs : List TransportEvent)
    → let t = new_pubsub_transport subject_prefix in
      let r = run t xs in
      (jobs_of r.delivered ++ r.queue ≡ let_in t xs)
      × (length r.queue ≤ queue_size)
      × IsSpaced r.logged
unfolding all_jobs let_in jobs_of
handed_over_in_order subject_prefix xs =
    let t = new_pubsub_transport subject_prefix in
    let kept = run-IsKept t xs (omega arith, refl, tt) in (keeps_all t xs, kept.0, kept.2)
