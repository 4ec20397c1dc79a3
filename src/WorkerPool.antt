-- ===== src/WorkerPool.antt =====
-- The pool of workers: pkg/worker-pool/1_worker_pool.go. A task is its number. `Submit` runs under the read
-- lock and the end of `Close` under the write lock, so each is one step. Workers take tasks from the
-- channel, which keeps its order; receiving from the closed channel goes on until it is empty.
pub mod Fate
use go_pkg.Common.{
  ℕ, ◌+◌, ◌-◌, Bool, true, false, ◌&&◌, not, Option, none, some, List, [], ◌∷◌, ◌++◌, if◌then◌else◌,
  ltb, length,
}

pub record Pool : Type 0 where
  pub queue : List ℕ
  pub buffer : ℕ
  pub dropped : ℕ
  -- `done` is closed first, `taskQueue` with `closed` later.
  pub done : Bool
  pub closed : Bool
  -- The tasks that were handed to a worker, in order, and the workers that have not ended.
  pub taken : List ℕ
  pub workers : ℕ

abbrev pub new : ℕ → Pool
new buffer = record {
  queue = [];
  buffer = buffer;
  dropped = 0;
  done = false;
  closed = false;
  taken = [];
  workers = 0;
}

abbrev pub start : Pool → ℕ → Pool
start p workers = record p { workers = p.workers + workers }

unfoldable pub submit : Pool → ℕ → Bool × Pool
submit p task =
    if p.closed
    then (false, record p { dropped = p.dropped + 1 })
    else if ltb (length p.queue) p.buffer
    then (true, record p { queue = p.queue ++ task ∷ [] })
    else (false, record p { dropped = p.dropped + 1 })

-- A worker that is free: the next task, or its end where the closed channel is empty.
unfoldable pub work : Pool → Pool
work p = elim p.queue [
  | [] ↦ if p.closed then record p { workers = p.workers - 1 } else p
  | task ∷ queue ↦ record p { queue = queue; taken = p.taken ++ task ∷ [] }
]

-- The two halves of `Close`, between which others run. Closing a closed channel is a panic, `none`.
unfoldable pub close_done : Pool → Option Pool
close_done p = if p.done then none else some (record p { done = true })

unfoldable pub close_queue : Pool → Option Pool
close_queue p = if p.closed then none else some (record p { closed = true })

-- The thresholds of `monitorQueue`: whether the action runs at a tick, and what is kept.
unfoldable pub monitor_upper : ℕ → Bool → ℕ → Bool × Bool
monitor_upper threshold was_above queue_len =
    let is_above = ltb threshold queue_len in (is_above && not was_above, is_above)

unfoldable pub monitor_lower : ℕ → Bool → ℕ → Bool × Bool
monitor_lower threshold was_below queue_len =
    let is_below = ltb queue_len threshold in (is_below && not was_below, is_below)

pub data PoolEvent : Type 0 where
  submits : ℕ → PoolEvent
  works : PoolEvent
  closes : PoolEvent

-- The first `Close`; what a second one does is `close_done`.
abbrev pub or_same : Pool → Option Pool → Pool
or_same p none = p
or_same p (some p') = p'

unfoldable pub step : Pool → PoolEvent → Pool
unfolding submit work close_queue
step p (submits task) = (submit p task).1
step p works = work p
step p closes = or_same p (close_queue p)

unfoldable pub run : Pool → List PoolEvent → Pool
run p [] = p
run p (x ∷ xs) = run (step p x) xs
