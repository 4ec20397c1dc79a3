-- ===== src/Gobwas/Polling/Reader.antt =====
-- One read of a connection at a time, and none that is forgotten.
use go_pkg.Common.{
  ℕ, ◌+◌, ◌≤◌, ◌≡◌, refl, Bool, true, false, List, [], ◌∷◌, if◌then◌else◌, ltb, ◌-◌, Bool-cases,
  inl, inr, arith,
}
use go_pkg.Gobwas.{Client, note_read, close, remove_client}
use go_pkg.Gobwas.Frames.{ReadResult}
use go_pkg.Gobwas.Frames.Once.{reading, closing, input, input-closed}
use go_pkg.Gobwas.Polling.{
  Polled, polled, set_client, handle_client_data, resume_read, on_event, run_task, task_panics,
  PollEvent, fires, reads_frame, panics_at, resumes, others, poll_step, poll_run,
}

pub places : Polled → ℕ
places r = (if r.armed then 1 else 0) + r.queued + r.resuming + r.lost

-- The connection is in one place at most, and in one while it is open.
abbrev pub IsSingle : Polled → Type 0
IsSingle r = (places r ≤ 1) × (r.client.closed ≡ false → places r ≡ 1)

closing-closes : (cl : Client) → ((input 0 0 cl closing).0).closed ≡ true
unfolding input close remove_client
closing-closes cl = ground arith

set_client-IsSingle :
    (r : Polled) (cl : Client)
    → (r.client.closed ≡ true → cl.closed ≡ true)
    → IsSingle r
    → IsSingle (set_client r cl)
unfolding set_client places
set_client-IsSingle r cl keep (h, k) = elim (Bool-cases cl.closed) [
  | inl is_closed ↦ (ground (arith, h), λ e. absurd (ground (arith, e, is_closed)))
  | inr still_open ↦ elim (Bool-cases r.client.closed) [
    | inl was ↦ absurd (ground (arith, keep was, still_open))
    | inr live ↦ (ground (arith, h, still_open), λ e. ground (arith, k live, still_open))
  ]
]

if-IsSingle :
    (c : Bool) (r r' : Polled)
    → (c ≡ true → IsSingle r)
    → IsSingle r'
    → IsSingle (if c then r else r')
if-IsSingle true r r' h h' = h refl
if-IsSingle false r r' h h' = h'

on_event-IsSingle :
    (r : Polled) (hup submitted : Bool)
    → r.armed ≡ true
    → IsSingle r
    → IsSingle (on_event r hup submitted)
unfolding on_event set_client handle_client_data places
on_event-IsSingle r true submitted on (h, k) =
    (ground (arith, h, on), λ e. absurd (ground (arith, e, closing-closes r.client)))
on_event-IsSingle r false true on (h, k) = (ground (arith, h, on), λ e. ground (arith, k e, on))
on_event-IsSingle r false false on (h, k) = (ground (arith, h, on), λ e. ground (arith, k e, on))

run_task-IsSingle :
    (r : Polled) (read : ReadResult) (now : ℕ) (allow ok : Bool)
    → ltb 0 r.queued ≡ true
    → IsSingle r
    → IsSingle (run_task r read now allow ok)
unfolding run_task set_client places
run_task-IsSingle r read now allow ok some_queued (h, k) =
    let cl = (input 0 0 r.client (reading read now allow ok)).0 in
    let (h', k') =
      set_client-IsSingle r cl (input-closed 0 0 r.client (reading read now allow ok)) (h, k) in
    (ground (arith, h', some_queued), λ e. ground (arith, k' e, some_queued))

task_panics-IsSingle :
    (r : Polled) (now : ℕ) → ltb 0 r.queued ≡ true → IsSingle r → IsSingle (task_panics r now)
unfolding task_panics set_client note_read places
task_panics-IsSingle r now some_queued (h, k) =
    let (h', k') = set_client-IsSingle r (note_read r.client now) (λ e. e) (h, k) in
    (ground (arith, h', some_queued), λ e. ground (arith, k' e, some_queued))

resume-IsSingle :
    (r : Polled) (ok : Bool)
    → ltb 0 r.resuming ≡ true
    → IsSingle r
    → IsSingle (resume_read (record r { resuming = r.resuming - 1 }) ok)
unfolding resume_read places
resume-IsSingle r ok due (h, k) = elim (Bool-cases r.client.closed) [
  | inl was ↦ (ground (arith, h, due, was), λ e. absurd (ground (arith, e, was)))
  | inr live ↦ (ground (arith, h, due, live), λ e. ground (arith, k live, due, live))
]

poll_step-IsSingle : (r : Polled) (e : PollEvent) → IsSingle r → IsSingle (poll_step r e)
unfolding poll_step
poll_step-IsSingle r (fires hup submitted) h =
    if-IsSingle r.armed (on_event r hup submitted) r (λ on. on_event-IsSingle r hup submitted on h)
      h
poll_step-IsSingle r (reads_frame read now allow ok) h =
    if-IsSingle (ltb 0 r.queued) (run_task r read now allow ok) r
      (λ some_queued. run_task-IsSingle r read now allow ok some_queued h) h
poll_step-IsSingle r (panics_at now) h =
    if-IsSingle (ltb 0 r.queued) (task_panics r now) r
      (λ some_queued. task_panics-IsSingle r now some_queued h) h
poll_step-IsSingle r (resumes ok) h =
    if-IsSingle (ltb 0 r.resuming) (resume_read (record r { resuming = r.resuming - 1 }) ok) r
      (λ due. resume-IsSingle r ok due h) h
poll_step-IsSingle r (others idle timeout i) h =
    set_client-IsSingle r (input idle timeout r.client i).0 (input-closed idle timeout r.client i) h

new-IsSingle : (cl : Client) → IsSingle (polled cl)
unfolding places
new-IsSingle cl = (omega arith, λ e. omega arith)

poll_run-IsSingle : (r : Polled) (es : List PollEvent) → IsSingle r → IsSingle (poll_run r es)
unfolding poll_run
poll_run-IsSingle r [] h = h
poll_run-IsSingle r (e ∷ es) h = poll_run-IsSingle (poll_step r e) es (poll_step-IsSingle r e h)

-- The task that waits, if one does, and then the `resumeRead` that is due.
abbrev pub catch_up : ReadResult → ℕ → Bool → Bool → List PollEvent
catch_up read now allow ok = reads_frame read now allow ok ∷ resumes true ∷ []

caught_up :
    (r : Polled) (read : ReadResult) (now : ℕ) (allow ok : Bool)
    → IsSingle r
    → r.lost ≡ 0
    → let r' = poll_run r (catch_up read now allow ok) in r'.client.closed ≡ false → r'.armed ≡ true
unfolding poll_run poll_step run_task set_client resume_read places
caught_up r read now allow ok h none_lost live =
    let (h', k') = poll_run-IsSingle r (catch_up read now allow ok) h in
    ground (arith, h.0, none_lost, k' live, live)

-- For a new connection, whatever the poller, the pool, the peer and the other goroutines do and in
-- whatever order, panics of the handler of messages included: at most one of its reads waits, runs or
-- is about to arm the descriptor, and none does while the descriptor is armed; while the connection is
-- open it is armed, waiting, read or about to be armed, or was lost as a `Resume` failed or a handler
-- panicked; and if it was not lost, then after the task that waits and a `Resume` that succeeds it is
-- armed again unless it is closed.
pub one_reader_none_forgotten :
    (cl : Client) (es : List PollEvent) (read : ReadResult) (now : ℕ) (allow ok : Bool)
    → let r = poll_run (polled cl) es in
      let r' = poll_run r (catch_up read now allow ok) in
      IsSingle r × (r.lost ≡ 0 → r'.client.closed ≡ false → r'.armed ≡ true)
one_reader_none_forgotten cl es read now allow ok =
    let h = poll_run-IsSingle (polled cl) es (new-IsSingle cl) in
    (h, λ none_lost. caught_up (poll_run (polled cl) es) read now allow ok h none_lost)
