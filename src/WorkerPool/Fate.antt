-- ===== src/WorkerPool/Fate.antt =====
-- What becomes of a task.
use go_pkg.Common.{
  ltb, ℕ, zero, suc, ◌≤◌, true, false, ◌≡◌, refl, ap, sym, ◌∙◌, List, [], ◌∷◌, ◌++◌, if◌then◌else◌,
  length, Bool-cases, List-cases, inl, inr, arith,
}
use mathlib.Core.List.{append_assoc, append-nil}
use go_pkg.WorkerPool.{
  Pool, submit, work, close_queue, or_same, PoolEvent, submits, works, closes, step, run,
}

-- The tasks that `Submit` let in, in their order.
pub let_in : Pool → List PoolEvent → List ℕ
let_in p [] = []
let_in p (submits task ∷ xs) =
    let rest = let_in (step p (submits task)) xs in if (submit p task).0 then task ∷ rest else rest
let_in p (works ∷ xs) = let_in (step p works) xs
let_in p (closes ∷ xs) = let_in (step p closes) xs

-- Handed out first, then waiting: in the order of their submission.
pub all_tasks : Pool → List ℕ
all_tasks p = p.taken ++ p.queue

all_tasks-work : (p : Pool) → all_tasks (work p) ≡ all_tasks p
unfolding all_tasks work
all_tasks-work p = elim (List-cases p.queue) [
  | inl empty ↦ ground (arith, empty)
  | inr (task, rest, e) ↦ rw (e, work) (append_assoc p.taken (task ∷ []) rest)
]

all_tasks-close : (p : Pool) → all_tasks (or_same p (close_queue p)) ≡ all_tasks p
unfolding all_tasks close_queue
all_tasks-close p = ground arith

all_tasks-submit :
    (p : Pool) (task : ℕ) (later : List ℕ)
    → all_tasks (submit p task).1 ++ later
      ≡ all_tasks p ++ (if (submit p task).0 then task ∷ later else later)
unfolding all_tasks submit
all_tasks-submit p task later = elim (Bool-cases p.closed) [
  | inl closed ↦ rw closed refl
  | inr still_open ↦ elim (Bool-cases (ltb (length p.queue) p.buffer)) [
    | inl room ↦
        rw (still_open, room)
          (ap (λ l. l ++ later) (sym (append_assoc p.taken p.queue (task ∷ [])))
            ∙ append_assoc (p.taken ++ p.queue) (task ∷ []) later)
    | inr full ↦ rw (still_open, full) refl
  ]
]

-- From any pool, while tasks are submitted, workers are free and the pool is closed in any order:
-- what was handed out and what waits are the tasks that were there and then those let in, in the
-- order of their submission. So no task that was let in is lost or handed out twice, and they are
-- handed out in order.
pub run_keeps_tasks :
    (p : Pool) (xs : List PoolEvent) → all_tasks (run p xs) ≡ all_tasks p ++ let_in p xs
unfolding run step let_in
run_keeps_tasks p [] = sym (append-nil (all_tasks p))
run_keeps_tasks p (works ∷ xs) =
    run_keeps_tasks (work p) xs ∙ ap (λ l. l ++ let_in (work p) xs) (all_tasks-work p)
run_keeps_tasks p (closes ∷ xs) =
    let p' = or_same p (close_queue p) in
    run_keeps_tasks p' xs ∙ ap (λ l. l ++ let_in p' xs) (all_tasks-close p)
run_keeps_tasks p (submits task ∷ xs) =
    run_keeps_tasks (submit p task).1 xs ∙ all_tasks-submit p task (let_in (submit p task).1 xs)

pub works_left : ℕ → List PoolEvent
works_left zero = []
works_left (suc n) = works ∷ works_left n

work_shortens : (p : Pool) (n : ℕ) → length p.queue ≤ suc n → length (work p).queue ≤ n
unfolding work
work_shortens p n h = elim (List-cases p.queue) [
  | inl empty ↦ ground (arith, empty)
  | inr (task, rest, e) ↦ rw (e, work) (omega (arith, ap (length {A = ℕ}) e))
]

drained : (p : Pool) (n : ℕ) → length p.queue ≤ n → (run p (works_left n)).queue ≡ []
unfolding run step works_left
drained p zero h = elim (List-cases p.queue) [
  | inl empty ↦ empty
  | inr (task, rest, e) ↦ absurd (omega (arith, ap (length {A = ℕ}) e))
]
drained p (suc n) h = drained (work p) n (work_shortens p n h)

-- A closed pool hands out all that waits while its workers go on, and lets nothing in.
pub closed_drains :
    (p : Pool) (n : ℕ)
    → p.closed ≡ true
    → length p.queue ≤ n
    → ((run p (works_left n)).queue ≡ []) × ((task : ℕ) → (submit p task).0 ≡ false)
unfolding submit
closed_drains p n closed h = (drained p n h, λ task. rw closed refl)
