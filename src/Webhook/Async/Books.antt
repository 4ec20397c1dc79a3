-- ===== src/Webhook/Async/Books.antt =====
-- The books of the dispatcher: its bounds, and what enqueueing and delivering keep of them.
use go_pkg.Common.{
  ℕ, zero, suc, ◌+◌, ◌-◌, ◌≤◌, ◌<◌, ◌≡◌, refl, ◌∙◌, inl, inr, Bool, true, false, some, List, [],
  ◌∷◌, ◌++◌, ltb, leb, length, length-append, get_elem?, min, max, All, Bool-cases, arith,
}
use go_pkg.Webhook.Async.{AsyncJob, AsyncDispatcher, async_queue_size, enqueue_or_drop, deliver}

-- A job that may be posted again: all its posts are counted, and there is one left.
abbrev pub Waiting : ℕ → AsyncJob → Type 0
Waiting n job = (job.attempt ≡ job.posts) × (job.posts < max n 1)

-- A job that is not posted again.
abbrev pub Done : ℕ → AsyncJob → Type 0
Done n job = job.posts ≤ max n 1

pub record IsBounded (d : AsyncDispatcher) : Type 0 where
  pub room : length d.queue ≤ async_queue_size
  pub has_backoff : 0 < length d.backoff
  pub queued : All (Waiting d.retry_max) d.queue
  pub timed : All (λ t. Waiting d.retry_max t.1) d.timers
  pub delivered_in_time : All (Done d.retry_max) d.delivered
  pub dropped_in_time : All (Done d.retry_max) d.dropped
  pub lost_in_time : All (Done d.retry_max) d.lost

abbrev pub total : AsyncDispatcher → ℕ
total d = length d.queue + length d.timers + length d.delivered + length d.dropped + length d.lost

pub get_elem?-below :
    {A : Type 0} (xs : List A) (i : ℕ) → i < length xs → (x : A) × (get_elem? xs i ≡ some x)
get_elem?-below [] i h = elim h [ ]
get_elem?-below (x ∷ xs) zero h = (x, refl)
get_elem?-below (x ∷ xs) (suc i) h = get_elem?-below xs i (omega arith)

pub All-snoc {ℓ κ} :
    {A : Type ℓ} (P : A → Type κ) (xs : List A) (x : A) → All P xs → P x → All P (xs ++ x ∷ [])
All-snoc P [] x h p = (p, tt)
All-snoc P (y ∷ xs) x h p = (h.0, All-snoc P xs x h.1 p)

-- What a step keeps, and how many jobs it takes in.
pub record Keeps (d d' : AsyncDispatcher) (taken : ℕ) : Type 0 where
  pub bounded : IsBounded d'
  pub conserved : total d' ≡ total d + taken
  pub same_retry_max : d'.retry_max ≡ d.retry_max

pub enqueue-Keeps :
    (d : AsyncDispatcher) (job : AsyncJob)
    → IsBounded d
    → Waiting d.retry_max job
    → Keeps d (enqueue_or_drop d job) 1
unfolding enqueue_or_drop
enqueue-Keeps d job b w = elim (Bool-cases (ltb (length d.queue) async_queue_size)) [
  | inl room ↦ rw room (record {
    bounded = record {
      room = ground (arith, length-append d.queue (job ∷ []));
      has_backoff = b.has_backoff;
      queued = All-snoc (Waiting d.retry_max) d.queue job b.queued w;
      timed = b.timed;
      delivered_in_time = b.delivered_in_time;
      dropped_in_time = b.dropped_in_time;
      lost_in_time = b.lost_in_time;
    };
    conserved = omega (arith, length-append d.queue (job ∷ []));
    same_retry_max = refl;
  })
  | inr full ↦ rw full (record {
    bounded = record {
      room = b.room;
      has_backoff = b.has_backoff;
      queued = b.queued;
      timed = b.timed;
      delivered_in_time = b.delivered_in_time;
      dropped_in_time = (omega (arith, w.1), b.dropped_in_time);
      lost_in_time = b.lost_in_time;
    };
    conserved = omega arith;
    same_retry_max = refl;
  })
]

-- The index into the backoff list is in range, so `deliver` does not panic.
pub deliver-Keeps :
    (d : AsyncDispatcher) (job : AsyncJob) (posted : Bool)
    → IsBounded d
    → Waiting d.retry_max job
    → (d' : AsyncDispatcher) × (deliver d job posted ≡ some d') × Keeps d d' 1
unfolding deliver
deliver-Keeps d job true b w = (
  _,
  refl,
  record {
    bounded = record {
      room = b.room;
      has_backoff = b.has_backoff;
      queued = b.queued;
      timed = b.timed;
      delivered_in_time = (omega (arith, w.1), b.delivered_in_time);
      dropped_in_time = b.dropped_in_time;
      lost_in_time = b.lost_in_time;
    };
    conserved = omega arith;
    same_retry_max = refl;
  },
)
deliver-Keeps d job false b w = elim (Bool-cases (leb d.retry_max (job.attempt + 1))) [
  | inl spent ↦ (
    record d {
      dropped = record job { attempt = job.attempt + 1; posts = job.posts + 1 } ∷ d.dropped;
    },
    rw spent,
    record {
      bounded = record {
        room = b.room;
        has_backoff = b.has_backoff;
        queued = b.queued;
        timed = b.timed;
        delivered_in_time = b.delivered_in_time;
        dropped_in_time = (omega (arith, w.1), b.dropped_in_time);
        lost_in_time = b.lost_in_time;
      };
      conserved = omega arith;
      same_retry_max = refl;
    },
  )
  | inr left ↦
      let i = min (job.attempt + 1 - 1) (length d.backoff - 1) in
      let (delay, at_i) = get_elem?-below d.backoff i (omega (arith, b.has_backoff)) in
      (
        record d {
          timers =
              (delay, record job { attempt = job.attempt + 1; posts = job.posts + 1 }) ∷ d.timers;
        },
        rw (left, at_i),
        record {
          bounded = record {
            room = b.room;
            has_backoff = b.has_backoff;
            queued = b.queued;
            timed = ((omega (arith, w.0), ground (arith, w.0, left)), b.timed);
            delivered_in_time = b.delivered_in_time;
            dropped_in_time = b.dropped_in_time;
            lost_in_time = b.lost_in_time;
          };
          conserved = omega arith;
          same_retry_max = refl;
        },
      )
]

pub chain :
    {d d1 d2 : AsyncDispatcher} (m n k : ℕ)
    → k ≡ m + n
    → Keeps d d1 m
    → Keeps d1 d2 n
    → Keeps d d2 k
chain m n l e k k' = record {
  bounded = k'.bounded;
  conserved = omega (arith, e, k.conserved, k'.conserved);
  same_retry_max = k'.same_retry_max ∙ k.same_retry_max;
}

pub close-Keeps : (d : AsyncDispatcher) → IsBounded d → Keeps d (record d { closed = true }) 0
close-Keeps d b = record {
  bounded = record {
    room = b.room;
    has_backoff = b.has_backoff;
    queued = b.queued;
    timed = b.timed;
    delivered_in_time = b.delivered_in_time;
    dropped_in_time = b.dropped_in_time;
    lost_in_time = b.lost_in_time;
  };
  conserved = omega arith;
  same_retry_max = refl;
}
