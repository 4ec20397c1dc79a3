-- ===== src/Examples/Server.antt =====
-- The websocket server.
use go_pkg.Common.{◌≤◌, ◌≡◌, ◌↔◌, refl, true, false, List, [], ◌∷◌}
use go_pkg.Gobwas.{Client, note_read, send, close, remove_client}
use go_pkg.Gobwas.Polling.{
  PollEvent, fires, resumes, others, polled, poll_run, poll_step, on_event, run_task, set_client,
  resume_read, handle_client_data,
}
use go_pkg.Gobwas.Polling.Reader.{IsSingle, catch_up, one_reader_none_forgotten}
use go_pkg.Gobwas.Frames.{
  ReadResult, op_close, op_text, reads, process_client_message, validate_frame, handle_frame,
  dispatch_frame,
}
use go_pkg.Gobwas.Frames.Once
use go_pkg.Gobwas.Frames.Once.{
  Input, reading, closing, sending, input, close_frames, on_closes, closed_once,
}
use go_pkg.Gobwas.Slots
use go_pkg.Gobwas.Slots.{SlotEvent, opens, removes, new_server}
use go_pkg.Gobwas.Slots.Cap.{Balanced, slots-Balanced}

abbrev idle_client : Client
idle_client = record {
  closed = false;
  close_tx = false;
  close_rx = false;
  last_read_at = 0;
  last_ping_at = 0;
  last_pong_at = 0;
  awaiting_pong = false;
}

-- A close frame with code 1001, and the server's own close after it.
abbrev leaving : List Input
leaving =
    reading (reads (record { rsv = 0; op_code = op_close; fin = true; payload = 3 ∷ 233 ∷ [] })) 5
      true true
    ∷ closing
    ∷ []

closed_once_example :
    (close_frames (Once.run 30 10 idle_client leaving).1 ≤ 1)
    × (on_closes (Once.run 30 10 idle_client leaving).1 ≤ 1)
    × ((((Once.run 30 10 idle_client leaving).0).closed ≡ true)
        ↔ (on_closes (Once.run 30 10 idle_client leaving).1 ≡ 1))
closed_once_example = closed_once 30 10 idle_client leaving refl refl

abbrev a_text : ReadResult
a_text = reads (record { rsv = 0; op_code = op_text; fin = true; payload = 104 ∷ [] })

-- The pool refuses the first read and the poller delivers it again; a message is sent meanwhile.
abbrev busy_pool : List PollEvent
busy_pool =
    fires false false ∷ others 30 10 (sending (1 ∷ []) true) ∷ resumes true ∷ fires false true ∷ []

one_reader_none_forgotten_example :
    IsSingle (poll_run (polled idle_client) busy_pool)
    × ((poll_run (polled idle_client) busy_pool).lost ≡ 0
        → (poll_run
            (poll_run (polled idle_client) busy_pool)
            (catch_up a_text 5 true true)).client.closed
          ≡ false
        → (poll_run (poll_run (polled idle_client) busy_pool) (catch_up a_text 5 true true)).armed
          ≡ true)
one_reader_none_forgotten_example =
    one_reader_none_forgotten idle_client busy_pool a_text 5 true true

reads_again_test :
    (poll_run (poll_run (polled idle_client) busy_pool) (catch_up a_text 5 true true)).armed ≡ true
unfolding poll_run poll_step on_event run_task set_client resume_read handle_client_data input send
    close remove_client process_client_message validate_frame handle_frame dispatch_frame note_read
reads_again_test = refl

-- Two connections under a cap of one, the second refused, and the first removed.
abbrev arrivals : List SlotEvent
arrivals =
    opens
      (record { healthy = true; has_conn = true; fd_ok = true; desc_ok = true; start_ok = true })
    ∷ opens
        (record { healthy = true; has_conn = true; fd_ok = true; desc_ok = true; start_ok = true })
    ∷ removes
    ∷ []

slots-Balanced_example :
    Balanced 1 (Slots.run 1 (new_server, 0) arrivals).0 (Slots.run 1 (new_server, 0) arrivals).1
slots-Balanced_example = slots-Balanced 1 arrivals
