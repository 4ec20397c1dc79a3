-- ===== src/Webhook/Async.antt =====
-- The asynchronous dispatcher of server/webhook/async.go. Its worker, its timers and its callers
-- interleave as a list of events. `delivered`, `dropped` and `lost` are ghost lists of the jobs
-- that left the dispatcher: after a 2xx answer, with a warning, or silently at a closed timer. `posts`
-- is a ghost field of a job that counts the posts made for it, apart from the code's `attempt`.
pub mod Books
pub mod Conservation
use go_pkg.Common.{
  ℕ, zero, suc, ◌+◌, ◌-◌, Bool, true, false, ◌&&◌, Option, none, some, List, [], ◌∷◌, ◌++◌,
  if◌then◌else◌, ltb, leb, length, get_elem?, min, Bytes,
}

abbrev pub async_queue_size : ℕ
async_queue_size = 1024

-- `DefaultBackoff`, in seconds.
abbrev pub default_backoff : List ℕ
default_backoff = 1 ∷ 5 ∷ 30 ∷ 120 ∷ 600 ∷ []

pub record AsyncJob : Type 0 where
  pub event_type : Bytes
  pub callback_id : Bytes
  pub payload : Bytes
  pub attempt : ℕ
  pub posts : ℕ

pub record AsyncDispatcher : Type 0 where
  pub backoff : List ℕ
  pub retry_max : ℕ
  pub queue : List AsyncJob
  pub timers : List (ℕ × AsyncJob)
  pub closed : Bool
  pub stopped : Bool
  pub delivered : List AsyncJob
  pub dropped : List AsyncJob
  pub lost : List AsyncJob

abbrev pub or_default : List ℕ → List ℕ
or_default [] = default_backoff
or_default (d ∷ ds) = d ∷ ds

unfoldable pub new_async_dispatcher : ℕ → List ℕ → AsyncDispatcher
new_async_dispatcher retry_max backoff = record {
  backoff = or_default backoff;
  retry_max = retry_max;
  queue = [];
  timers = [];
  closed = false;
  stopped = false;
  delivered = [];
  dropped = [];
  lost = [];
}

-- The `select` with a `default` that sends to the bounded channel or drops.
unfoldable pub enqueue_or_drop : AsyncDispatcher → AsyncJob → AsyncDispatcher
enqueue_or_drop d job =
    if ltb (length d.queue) async_queue_size
    then record d { queue = d.queue ++ job ∷ [] }
    else record d { dropped = job ∷ d.dropped }

unfoldable pub emit : AsyncDispatcher → Bytes → Bytes → Bytes → AsyncDispatcher
unfolding enqueue_or_drop
emit d event_type callback_id payload = enqueue_or_drop d (record {
  event_type = event_type;
  callback_id = callback_id;
  payload = payload;
  attempt = 0;
  posts = 0;
})

-- `posted` tells whether the post came back with a 2xx status. An empty backoff list would be an
-- index out of range: `none`.
unfoldable pub deliver : AsyncDispatcher → AsyncJob → Bool → Option AsyncDispatcher
deliver d job posted =
    let job' = record job { attempt = job.attempt + 1; posts = job.posts + 1 } in
    if posted
    then some (record d { delivered = job' ∷ d.delivered })
    else if leb d.retry_max job'.attempt
    then some (record d { dropped = job' ∷ d.dropped })
    else elim (get_elem? d.backoff (min (job'.attempt - 1) (length d.backoff - 1))) [
      | none ↦ none
      | some delay ↦ some (record d { timers = (delay, job') ∷ d.timers })
    ]

-- One turn of the worker: it takes the oldest job, or returns once the dispatcher is closed.
unfoldable pub work : AsyncDispatcher → Bool → Option AsyncDispatcher
unfolding deliver
work d posted = if d.stopped then some d else elim d.queue [
  | [] ↦ some (record d { stopped = d.closed })
  | job ∷ rest ↦ deliver (record d { queue = rest }) job posted
]

-- Takes the i-th pending timer out.
unfoldable pub take_timer : ℕ → List (ℕ × AsyncJob) → Option (AsyncJob × List (ℕ × AsyncJob))
take_timer i [] = none
take_timer zero (t ∷ ts) = some (t.1, ts)
take_timer (suc i) (t ∷ ts) = elim (take_timer i ts) [ none ↦ none | some r ↦ some (r.0, t ∷ r.1) ]

-- A retry timer fires: on a closed dispatcher `select` may take either case.
unfoldable pub fire : AsyncDispatcher → ℕ → Bool → AsyncDispatcher
unfolding enqueue_or_drop
fire d i give_up = elim (take_timer i d.timers) [
  | none ↦ d
  | some r ↦
      let d' = record d { timers = r.1 } in
      if d.closed && give_up then record d' { lost = r.0 ∷ d.lost } else enqueue_or_drop d' r.0
]

pub data DispatchEvent : Type 0 where
  emits : Bytes → Bytes → Bytes → DispatchEvent
  works : Bool → DispatchEvent
  fires : ℕ → Bool → DispatchEvent
  closes : DispatchEvent

unfoldable pub step : AsyncDispatcher → DispatchEvent → Option AsyncDispatcher
step d (emits event_type callback_id payload) = some (emit d event_type callback_id payload)
step d (works posted) = work d posted
step d (fires i give_up) = some (fire d i give_up)
step d closes = some (record d { closed = true })

unfoldable pub run : AsyncDispatcher → List DispatchEvent → Option AsyncDispatcher
run d [] = some d
run d (e ∷ es) = elim (step d e) [ none ↦ none | some d' ↦ run d' es ]
