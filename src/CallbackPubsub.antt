-- ===== src/CallbackPubsub.antt =====
-- The transport of callbacks over a broker: server/callback/pubsub.go. Its goroutine and its callers interleave
-- as a list of events. `delivered` and `dropped` are ghost lists: the jobs that were handed to the broker, each with whether
-- `Publish` succeeded, and those that did not enter the queue; `logged` the times of the warnings, the latest first. Times are in seconds.
pub mod Delivery
use go_pkg.Common.{
  ℕ, ◌+◌, ◌-◌, Bool, true, false, not, Bytes, bytes, List, [], ◌∷◌, ◌++◌, if◌then◌else◌, ltb, ◌==◌,
  length,
}

abbrev pub queue_size : ℕ
queue_size = 1024

abbrev pub drop_log_interval : ℕ
drop_log_interval = 5

pub record PubsubJob : Type 0 where
  pub subject : Bytes
  pub event_type : Bytes
  pub payload : Bytes

pub record PubsubTransport : Type 0 where
  pub subject_prefix : Bytes
  pub queue : List PubsubJob
  pub closed : Bool
  pub stopped : Bool
  pub last_drop_log : ℕ
  pub delivered : List (PubsubJob × Bool)
  pub dropped : List PubsubJob
  pub logged : List ℕ

abbrev pub new_pubsub_transport : Bytes → PubsubTransport
new_pubsub_transport subject_prefix = record {
  subject_prefix = subject_prefix;
  queue = [];
  closed = false;
  stopped = false;
  last_drop_log = 0;
  delivered = [];
  dropped = [];
  logged = [];
}

-- The job of an event whose data and envelope could be marshalled.
abbrev pub job_of : PubsubTransport → Bytes → Bytes → PubsubJob
job_of t event_type payload = record {
  subject = t.subject_prefix ++ (bytes "." ++ event_type);
  event_type = event_type;
  payload = payload;
}

abbrev pub has_room : PubsubTransport → Bool
has_room t = ltb (length t.queue) queue_size

-- `Emit`, up to its warning.
unfoldable pub emit : PubsubTransport → Bytes → Bytes → PubsubTransport
emit t event_type payload =
    let job = job_of t event_type payload in
    if has_room t
    then record t { queue = t.queue ++ job ∷ [] }
    else record t { dropped = job ∷ t.dropped }

-- `logDropRateLimited`: `last` was read before, so that others may have logged in between; then the swap fails.
unfoldable pub log_drop_rate_limited : PubsubTransport → ℕ → ℕ → PubsubTransport
log_drop_rate_limited t last now =
    if ltb (now - last) drop_log_interval
    then t
    else if t.last_drop_log == last
    then record t { last_drop_log = now; logged = now ∷ t.logged }
    else t

-- `deliver`: `ok` is the broker's answer; an event whose `Publish` fails is logged and lost.
unfoldable pub deliver : PubsubTransport → PubsubJob → Bool → PubsubTransport
deliver t job ok = record t { delivered = t.delivered ++ (job, ok) ∷ [] }

-- One turn of `loop`; a closed transport stops once its queue is empty.
unfoldable pub turn : PubsubTransport → Bool → PubsubTransport
unfolding deliver
turn t ok = if t.stopped then t else elim t.queue [
  | [] ↦ if t.closed then record t { stopped = true } else t
  | job ∷ queue ↦ deliver (record t { queue = queue }) job ok
]

-- `Shutdown`, up to its wait; `closeOnce` makes a second one do nothing.
unfoldable pub shut_down : PubsubTransport → PubsubTransport
shut_down t = record t { closed = true }

pub data TransportEvent : Type 0 where
  emits : Bytes → Bytes → TransportEvent
  logs : ℕ → ℕ → TransportEvent
  turns : Bool → TransportEvent
  shuts_down : TransportEvent

unfoldable pub step : PubsubTransport → TransportEvent → PubsubTransport
unfolding emit log_drop_rate_limited turn shut_down
step t (emits event_type payload) = emit t event_type payload
step t (logs last now) = log_drop_rate_limited t last now
step t (turns ok) = turn t ok
step t shuts_down = shut_down t

unfoldable pub run : PubsubTransport → List TransportEvent → PubsubTransport
run t [] = t
run t (x ∷ xs) = run (step t x) xs
