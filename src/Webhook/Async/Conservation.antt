-- ===== src/Webhook/Async/Conservation.antt =====
-- No callback is lost from the books, none is posted too often, and the queue stays bounded.
use go_pkg.Common.{
  ℕ, zero, suc, ◌+◌, ◌<◌, ◌≡◌, refl, subst, ap, ◌∙◌, List-cases, inl, inr, Bool, true, false, ◌&&◌,
  Option, none, some, List, [], ◌∷◌, length, All, Option-cases, Bool-cases, arith,
}
use go_pkg.Webhook.Async.{
  AsyncJob, AsyncDispatcher, or_default, new_async_dispatcher, enqueue_or_drop, emit, deliver, work,
  take_timer, fire, DispatchEvent, emits, works, fires, closes, step, run,
}
use go_pkg.Webhook.Async.Books.{
  Waiting, IsBounded, total, Keeps, enqueue-Keeps, deliver-Keeps, chain, close-Keeps,
}

-- What `take_timer` takes out of n pending timers.
abbrev Taken : ℕ → ℕ → Option (AsyncJob × List (ℕ × AsyncJob)) → Type 0
Taken n len none = Unit
Taken n len (some r) = Waiting n r.0 × All (λ t. Waiting n t.1) r.1 × (len ≡ suc (length r.1))

take_timer-Taken :
    (n i : ℕ) (ts : List (ℕ × AsyncJob))
    → All (λ t. Waiting n t.1) ts
    → Taken n (length ts) (take_timer i ts)
unfolding take_timer
take_timer-Taken n zero [] h = tt
take_timer-Taken n (suc i) [] h = tt
take_timer-Taken n zero (t ∷ ts) h = (h.0, h.1, refl)
take_timer-Taken n (suc i) (t ∷ ts) h = elim (Option-cases (take_timer i ts)) [
  | inl e ↦ rw (e, take_timer) tt
  | inr (r, e) ↦
      let (job, rest, len) : Taken n (length ts) (some r) =
        subst (Taken n (length ts)) e (take_timer-Taken n i ts h.1) in
      rw (e, take_timer) (job, (h.0, rest), omega arith)
]

work_takes :
    (d : AsyncDispatcher) (posted : Bool) (job : AsyncJob) (rest : List AsyncJob)
    → d.stopped ≡ false
    → d.queue ≡ job ∷ rest
    → work d posted ≡ deliver (record d { queue = rest }) job posted
unfolding work
work_takes d posted job rest running e = simp (running, e)

work-Keeps :
    (d : AsyncDispatcher) (posted : Bool)
    → IsBounded d
    → (d' : AsyncDispatcher) × (work d posted ≡ some d') × Keeps d d' 0
unfolding work
work-Keeps d posted b = elim (Bool-cases d.stopped) [
  | inl done ↦ (d, rw done, record { bounded = b; conserved = omega arith; same_retry_max = refl })
  | inr running ↦ elim (List-cases d.queue) [
    | inl empty ↦ (
      record d { stopped = d.closed },
      simp (running, empty),
      record {
        bounded = record {
          room = b.room;
          has_backoff = b.has_backoff;
          queued = b.queued;
          timed = b.timed;
          delivered_in_time = b.delivered_in_time;
          dropped_in_time = b.dropped_in_time;
          lost_in_time = b.lost_in_time;
        };
        conserved = omega arith;
        same_retry_max = refl;
      },
    )
    | inr (job, rest, e) ↦
        let (head, tail) : All (Waiting d.retry_max) (job ∷ rest) =
          subst (All (Waiting d.retry_max)) e b.queued in
        let shorter : length d.queue ≡ suc (length rest) = ap length e in
        let (d', done, k) =
          deliver-Keeps (record d { queue = rest }) job posted
            (record {
              room = omega (arith, shorter, b.room);
              has_backoff = b.has_backoff;
              queued = tail;
              timed = b.timed;
              delivered_in_time = b.delivered_in_time;
              dropped_in_time = b.dropped_in_time;
              lost_in_time = b.lost_in_time;
            })
            head in
        (
          d',
          work_takes d posted job rest running e ∙ done,
          record {
            bounded = k.bounded;
            conserved = omega (arith, shorter, k.conserved);
            same_retry_max = k.same_retry_max;
          },
        )
  ]
]

fire-Keeps :
    (d : AsyncDispatcher) (i : ℕ) (give_up : Bool) → IsBounded d → Keeps d (fire d i give_up) 0
unfolding fire
fire-Keeps d i give_up b = elim (Option-cases (take_timer i d.timers)) [
  | inl e ↦ rw (e, fire) (record { bounded = b; conserved = omega arith; same_retry_max = refl })
  | inr (r, e) ↦
      let (job, rest, len) : Taken d.retry_max (length d.timers) (some r) =
        subst (Taken d.retry_max (length d.timers)) e
          (take_timer-Taken d.retry_max i d.timers b.timed) in
      let b' : IsBounded (record d { timers = r.1 }) = record {
        room = b.room;
        has_backoff = b.has_backoff;
        queued = b.queued;
        timed = rest;
        delivered_in_time = b.delivered_in_time;
        dropped_in_time = b.dropped_in_time;
        lost_in_time = b.lost_in_time;
      } in
      elim (Bool-cases (d.closed && give_up)) [
        | inl gone ↦
            rw (e, fire, gone)
              (record {
                bounded = record {
                  room = b.room;
                  has_backoff = b.has_backoff;
                  queued = b.queued;
                  timed = rest;
                  delivered_in_time = b.delivered_in_time;
                  dropped_in_time = b.dropped_in_time;
                  lost_in_time = (omega (arith, job.1), b.lost_in_time);
                };
                conserved = omega (arith, len);
                same_retry_max = refl;
              })
        | inr sent ↦
            let k = enqueue-Keeps (record d { timers = r.1 }) r.0 b' job in
            rw (e, fire, sent)
              (record {
                bounded = k.bounded;
                conserved = omega (arith, len, k.conserved);
                same_retry_max = k.same_retry_max;
              })
      ]
]

-- The jobs that an event brings in.
pub emitted : List DispatchEvent → ℕ
emitted [] = 0
emitted (emits event_type callback_id payload ∷ es) = 1 + emitted es
emitted (works posted ∷ es) = emitted es
emitted (fires i give_up ∷ es) = emitted es
emitted (closes ∷ es) = emitted es

run-Keeps :
    (d : AsyncDispatcher) (es : List DispatchEvent)
    → IsBounded d
    → (d' : AsyncDispatcher) × (run d es ≡ some d') × Keeps d d' (emitted es)
unfolding run step emitted emit
run-Keeps d [] b = (d, refl, record { bounded = b; conserved = omega arith; same_retry_max = refl })
run-Keeps d (emits event_type callback_id payload ∷ es) b =
    let job : AsyncJob = record {
      event_type = event_type;
      callback_id = callback_id;
      payload = payload;
      attempt = 0;
      posts = 0;
    } in
    let k = enqueue-Keeps d job b (refl, omega arith) in
    let (d', e, k') = run-Keeps (enqueue_or_drop d job) es k.bounded in
    (d', e, chain 1 (emitted es) _ (omega arith) k k')
run-Keeps d (works posted ∷ es) b =
    let (d1, e1, k) = work-Keeps d posted b in
    let (d', e, k') = run-Keeps d1 es k.bounded in
    (d', rw (e1, run) e, chain 0 (emitted es) _ (omega arith) k k')
run-Keeps d (fires i give_up ∷ es) b =
    let k = fire-Keeps d i give_up b in
    let (d', e, k') = run-Keeps (fire d i give_up) es k.bounded in
    (d', e, chain 0 (emitted es) _ (omega arith) k k')
run-Keeps d (closes ∷ es) b =
    let k = close-Keeps d b in
    let (d', e, k') = run-Keeps (record d { closed = true }) es k.bounded in
    (d', e, chain 0 (emitted es) _ (omega arith) k k')

or_default-length : (backoff : List ℕ) → 0 < length (or_default backoff)
or_default-length [] = omega arith
or_default-length (d ∷ ds) = omega arith

-- From a new dispatcher, for every interleaving: it never panics, its queue holds at most 1024
-- jobs, for no job more than `retryMax` posts are made (one where that is less than 1), whether it was
-- delivered, dropped or lost, and for one that waits fewer, and the jobs that are queued, waiting for a
-- retry, delivered, dropped or lost are as many as those emitted.
pub run_accounts :
    (retry_max : ℕ) (backoff : List ℕ) (es : List DispatchEvent)
    → (d : AsyncDispatcher) × (run (new_async_dispatcher retry_max backoff) es ≡ some d)
      × IsBounded d
      × (total d ≡ emitted es)
      × (d.retry_max ≡ retry_max)
unfolding new_async_dispatcher
run_accounts retry_max backoff es =
    let (d, e, k) = run-Keeps (new_async_dispatcher retry_max backoff) es (record {
      room = omega arith;
      has_backoff = or_default-length backoff;
      queued = tt;
      timed = tt;
      delivered_in_time = tt;
      dropped_in_time = tt;
      lost_in_time = tt;
    }) in
    (d, e, k.bounded, omega (arith, k.conserved), k.same_retry_max)
