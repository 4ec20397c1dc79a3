-- ===== src/Gobwas/Frames/Once.antt =====
-- A connection is given up once, whatever the peer sends and whoever closes it.
use go_pkg.Common.{
  ℕ, ◌+◌, ◌≤◌, ◌≡◌, ◌↔◌, Bool, true, false, Bytes, List, [], ◌∷◌, ◌++◌, Bool-cases, inl, inr, arith,
}
use go_pkg.Gobwas.{
  Client, Effect, writes_close, on_close, remove_client, close, write_close_once,
  handle_protocol_error, close_with_reason, note_read, note_pong, next_ping_action, sent_ping, ping,
  send,
}
use go_pkg.Gobwas.Frames.{
  Frame, validate_frame, handle_close_frame, handle_ping_frame, dispatch_frame, handle_frame,
  ReadResult, peer_closed, header_failed, payload_failed, too_large, reads, process_client_message,
  is_one_byte, close_code,
}

abbrev one : Bool → ℕ
one true = 1
one false = 0

-- The close frames that are written, and the calls of `onClose`.
unfoldable pub close_frames : List Effect → ℕ
close_frames [] = 0
close_frames (writes_close code ∷ es) = 1 + close_frames es
close_frames (e ∷ es) = close_frames es

unfoldable pub on_closes : List Effect → ℕ
on_closes [] = 0
on_closes (on_close ∷ es) = 1 + on_closes es
on_closes (e ∷ es) = on_closes es

-- What a step writes is what it newly marks.
abbrev Marks : Client → Client → List Effect → Type 0
Marks cl cl' es =
    (close_frames es + one cl.close_tx ≡ one cl'.close_tx)
    × (on_closes es + one cl.closed ≡ one cl'.closed)

close_frames-append :
    (es fs : List Effect) → close_frames (es ++ fs) ≡ close_frames es + close_frames fs
unfolding close_frames
close_frames-append [] fs = omega arith
close_frames-append (e ∷ es) fs = ground (arith, close_frames-append es fs)

on_closes-append : (es fs : List Effect) → on_closes (es ++ fs) ≡ on_closes es + on_closes fs
unfolding on_closes
on_closes-append [] fs = omega arith
on_closes-append (e ∷ es) fs = ground (arith, on_closes-append es fs)

close-Marks : (cl : Client) → Marks cl (close cl).0 (close cl).1
unfolding close remove_client close_frames on_closes
close-Marks cl = ground arith

write_close_once-Marks :
    (cl : Client) (code : ℕ) (ok : Bool)
    → Marks cl (write_close_once cl code ok).0 (write_close_once cl code ok).1
unfolding write_close_once close_frames on_closes
write_close_once-Marks cl code ok = ground arith

both :
    (cl cl1 cl2 : Client) (es fs : List Effect)
    → Marks cl cl1 es
    → Marks cl1 cl2 fs
    → Marks cl cl2 (es ++ fs)
both cl cl1 cl2 es fs h k = (
  omega (arith, close_frames-append es fs, h.0, k.0),
  omega (arith, on_closes-append es fs, h.1, k.1),
)

handle_protocol_error-Marks :
    (cl : Client) (ok : Bool)
    → Marks cl (handle_protocol_error cl ok).0 (handle_protocol_error cl ok).1
unfolding handle_protocol_error
handle_protocol_error-Marks cl ok =
    let r = write_close_once cl 1002 ok in
    both cl r.0 (close r.0).0 r.1 (close r.0).1 (write_close_once-Marks cl 1002 ok)
      (close-Marks r.0)

close_with_reason-Marks :
    (cl : Client) (code : ℕ) (ok : Bool)
    → Marks cl (close_with_reason cl code ok).0 (close_with_reason cl code ok).1
unfolding close_with_reason
close_with_reason-Marks cl code ok =
    let r = write_close_once cl code ok in
    both cl r.0 (close r.0).0 r.1 (close r.0).1 (write_close_once-Marks cl code ok)
      (close-Marks r.0)

handle_close_frame-Marks :
    (cl : Client) (payload : Bytes) (ok : Bool)
    → Marks cl (handle_close_frame cl payload ok).0 (handle_close_frame cl payload ok).1
unfolding handle_close_frame
handle_close_frame-Marks cl payload ok = elim (Bool-cases (is_one_byte payload)) [
  | inl e ↦
      rw (e, handle_close_frame) (write_close_once-Marks (record cl { close_rx = true }) 1002 ok)
  | inr e ↦
      let r = write_close_once (record cl { close_rx = true }) (close_code payload) ok in
      rw (e, handle_close_frame)
        (both cl r.0 (close r.0).0 r.1 (close r.0).1
          (write_close_once-Marks (record cl { close_rx = true }) (close_code payload) ok)
          (close-Marks r.0))
]

dispatch_frame-Marks :
    (cl : Client) (f : Frame) (now : ℕ) (allow ok : Bool)
    → Marks cl (dispatch_frame cl f now allow ok).0 (dispatch_frame cl f now allow ok).1
unfolding dispatch_frame handle_ping_frame note_pong close_frames on_closes
dispatch_frame-Marks cl f now allow ok = ground (arith, handle_close_frame-Marks cl f.payload ok)

handle_frame-Marks :
    (cl : Client) (f : Frame) (now : ℕ) (allow ok : Bool)
    → Marks cl (handle_frame cl f now allow ok).0 (handle_frame cl f now allow ok).1
unfolding handle_frame
handle_frame-Marks cl f now allow ok =
    let r = dispatch_frame cl f now allow ok in
    let h = dispatch_frame-Marks cl f now allow ok in
    let q = handle_protocol_error r.0 ok in
    elim (Bool-cases r.2) [
      | inl e ↦ rw (e, handle_frame) h
      | inr e ↦
          rw (e, handle_frame) (both cl r.0 q.0 r.1 q.1 h (handle_protocol_error-Marks r.0 ok))
    ]

process-Marks :
    (cl : Client) (read : ReadResult) (now : ℕ) (allow ok : Bool)
    → Marks cl
        (process_client_message cl read now allow ok).0
        (process_client_message cl read now allow ok).1
unfolding process_client_message note_read close_frames on_closes
process-Marks cl peer_closed now allow ok = close-Marks cl
process-Marks cl header_failed now allow ok = (omega arith, omega arith)
process-Marks cl payload_failed now allow ok = close-Marks cl
process-Marks cl too_large now allow ok = handle_protocol_error-Marks cl ok
process-Marks cl (reads f) now allow ok = elim (Bool-cases (validate_frame f)) [
  | inl e ↦ rw (e, process_client_message) (handle_frame-Marks (note_read cl now) f now allow ok)
  | inr e ↦ rw (e, process_client_message) (handle_protocol_error-Marks cl ok)
]

ping-Marks :
    (idle timeout : ℕ) (cl : Client) (now : ℕ) (ok : Bool)
    → Marks cl (ping idle timeout cl now ok).0 (ping idle timeout cl now ok).1
unfolding ping next_ping_action sent_ping close remove_client close_frames on_closes
ping-Marks idle timeout cl now ok = ground arith

send-Marks :
    (cl : Client) (payload : Bytes) (ok : Bool)
    → Marks cl (send cl payload ok).0 (send cl payload ok).1
unfolding send close remove_client close_frames on_closes
send-Marks cl payload ok = ground arith

-- What can happen to a connection.
pub data Input : Type 0 where
  reading : ReadResult → ℕ → Bool → Bool → Input
  pinging : ℕ → Bool → Input
  sending : Bytes → Bool → Input
  closing : Input
  closing_with : ℕ → Bool → Input

unfoldable pub input : ℕ → ℕ → Client → Input → Client × List Effect
input idle timeout cl (reading r now allow ok) = process_client_message cl r now allow ok
input idle timeout cl (pinging now ok) = ping idle timeout cl now ok
input idle timeout cl (sending payload ok) = ((send cl payload ok).0, (send cl payload ok).1)
input idle timeout cl closing = close cl
input idle timeout cl (closing_with code ok) = close_with_reason cl code ok

unfoldable pub run : ℕ → ℕ → Client → List Input → Client × List Effect
run idle timeout cl [] = (cl, [])
run idle timeout cl (i ∷ is) =
    let (cl1, es1) = input idle timeout cl i in
    let (cl2, es2) = run idle timeout cl1 is in (cl2, es1 ++ es2)

input-Marks :
    (idle timeout : ℕ) (cl : Client) (i : Input)
    → Marks cl (input idle timeout cl i).0 (input idle timeout cl i).1
unfolding input
input-Marks idle timeout cl (reading r now allow ok) = process-Marks cl r now allow ok
input-Marks idle timeout cl (pinging now ok) = ping-Marks idle timeout cl now ok
input-Marks idle timeout cl (sending payload ok) = send-Marks cl payload ok
input-Marks idle timeout cl closing = close-Marks cl
input-Marks idle timeout cl (closing_with code ok) = close_with_reason-Marks cl code ok

-- Nothing opens a closed connection.
pub input-closed :
    (idle timeout : ℕ) (cl : Client) (i : Input)
    → cl.closed ≡ true
    → ((input idle timeout cl i).0).closed ≡ true
input-closed idle timeout cl i was =
    let (h, k) = input-Marks idle timeout cl i in
    elim (Bool-cases ((input idle timeout cl i).0).closed) [
      | inl e ↦ e
      | inr e ↦ absurd (ground (arith, k, was, e))
    ]

run-Marks :
    (idle timeout : ℕ) (cl : Client) (is : List Input)
    → Marks cl (run idle timeout cl is).0 (run idle timeout cl is).1
unfolding run close_frames on_closes
run-Marks idle timeout cl [] = (omega arith, omega arith)
run-Marks idle timeout cl (i ∷ is) =
    let r = input idle timeout cl i in
    let q = run idle timeout r.0 is in
    both cl r.0 q.0 r.1 q.1 (input-Marks idle timeout cl i) (run-Marks idle timeout r.0 is)

-- For a new connection, whatever is read, sent, pinged and closed and in whatever order: at most one close
-- frame is written, `onClose` is called at most once, and it has been called if and only if the
-- connection is closed.
pub closed_once :
    (idle timeout : ℕ) (cl : Client) (is : List Input)
    → cl.closed ≡ false
    → cl.close_tx ≡ false
    → let r = run idle timeout cl is in
      (close_frames r.1 ≤ 1) × (on_closes r.1 ≤ 1) × (((r.0).closed ≡ true) ↔ (on_closes r.1 ≡ 1))
closed_once idle timeout cl is live unsent =
    let (h, k) = run-Marks idle timeout cl is in
    (
      ground (arith, h, unsent),
      ground (arith, k, live),
      (λ e. ground (arith, k, live, e), λ e. ground (arith, k, live, e)),
    )
