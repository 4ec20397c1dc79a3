-- ===== src/Gobwas/Polling.antt =====
-- The reading side of a connection: the poller's callback, handleClientData and resumeRead of
-- 1_server.go. The poller disarms the descriptor with each event it delivers, and a stopped descriptor
-- delivers none. What the pool of workers and the poller answer is an argument.
pub mod Reader
use go_pkg.Common.{ℕ, ◌+◌, ◌-◌, Bool, true, false, not, ◌&&◌, List, [], ◌∷◌, if◌then◌else◌, ltb}
use go_pkg.Gobwas.{Client, note_read}
use go_pkg.Gobwas.Frames.{ReadResult}
use go_pkg.Gobwas.Frames.Once.{Input, reading, closing, input}

-- The reads that wait in the pool or run, the calls of `resumeRead` that are due, and the reads after
-- which the descriptor was not armed again: `Resume` failed, or a panic ended the task before it.
pub record Polled : Type 0 where
  pub client : Client
  pub armed : Bool
  pub queued : ℕ
  pub resuming : ℕ
  pub lost : ℕ

-- `Start` arms the descriptor.
abbrev pub polled : Client → Polled
polled cl = record { client = cl; armed = true; queued = 0; resuming = 0; lost = 0 }

-- What `removeClient` does to the descriptor is done with the first `Close`: it is stopped.
unfoldable pub set_client : Polled → Client → Polled
set_client r cl = record r { client = cl; armed = r.armed && not cl.closed }

-- `submitted` is the pool's answer; where it is no, a goroutine is started that resumes.
unfoldable pub handle_client_data : Polled → Bool → Polled
handle_client_data r submitted =
    if submitted then record r { queued = r.queued + 1 } else record r { resuming = r.resuming + 1 }

unfoldable pub resume_read : Polled → Bool → Polled
resume_read r resume_ok =
    if r.client.closed
    then r
    else if resume_ok
    then record r { armed = true }
    else record r { lost = r.lost + 1 }

-- The callback, in the poller: the descriptor is disarmed.
unfoldable pub on_event : Polled → Bool → Bool → Polled
unfolding set_client handle_client_data
on_event r hup submitted =
    let disarmed = record r { armed = false } in
    if hup
    then set_client disarmed (input 0 0 r.client closing).0
    else handle_client_data disarmed submitted

-- The first half of the task of `handleClientData`; the second is `resume_read`.
unfoldable pub run_task : Polled → ReadResult → ℕ → Bool → Bool → Polled
unfolding set_client
run_task r read now allow write_ok =
    let after = set_client r (input 0 0 r.client (reading read now allow write_ok)).0 in
    record after { queued = r.queued - 1; resuming = r.resuming + 1 }

-- The handler of the message panics: the worker recovers, the rest of the task is skipped.
unfoldable pub task_panics : Polled → ℕ → Polled
unfolding set_client
task_panics r now =
    let after = set_client r (note_read r.client now) in
    record after { queued = r.queued - 1; lost = r.lost + 1 }

pub data PollEvent : Type 0 where
  fires : Bool → Bool → PollEvent
  reads_frame : ReadResult → ℕ → Bool → Bool → PollEvent
  panics_at : ℕ → PollEvent
  resumes : Bool → PollEvent
  others : ℕ → ℕ → Input → PollEvent

-- Only an armed descriptor fires, only a queued task runs, only a due `resumeRead` is called. The
-- calls of the other goroutines, of pings and of closing, come at any time.
unfoldable pub poll_step : Polled → PollEvent → Polled
unfolding set_client on_event run_task task_panics resume_read
poll_step r (fires hup submitted) = if r.armed then on_event r hup submitted else r
poll_step r (reads_frame read now allow write_ok) =
    if ltb 0 r.queued then run_task r read now allow write_ok else r
poll_step r (panics_at now) = if ltb 0 r.queued then task_panics r now else r
poll_step r (resumes ok) =
    if ltb 0 r.resuming then resume_read (record r { resuming = r.resuming - 1 }) ok else r
poll_step r (others idle timeout i) = set_client r (input idle timeout r.client i).0

unfoldable pub poll_run : Polled → List PollEvent → Polled
poll_run r [] = r
poll_run r (e ∷ es) = poll_run (poll_step r e) es
