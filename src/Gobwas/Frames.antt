-- ===== src/Gobwas/Frames.antt =====
-- One frame of a client: processClientMessage of 1_server.go and 2_frame_handle.go.
pub mod Once
use go_pkg.Common.{
  ℕ, ◌+◌, ◌*◌, Bool, true, false, not, ◌&&◌, Bytes, Option, none, some, List, [], ◌∷◌, ◌++◌,
  if◌then◌else◌, ltb, ◌==◌,
}
use go_pkg.Gobwas.{
  Client, Effect, writes_close, writes_pong, text_message, bin_message, read_failed,
  status_normal_closure, status_protocol_error, close, write_close_once, handle_protocol_error,
  note_read, note_pong,
}

pub data OpCode : Type 0 where
  op_continuation op_text op_binary op_close op_ping op_pong : OpCode
  op_reserved : ℕ → OpCode

-- The payload is unmasked, which is in place and has no other effect.
pub record Frame : Type 0 where
  pub rsv : ℕ
  pub op_code : OpCode
  pub fin : Bool
  pub payload : Bytes

abbrev pub is_control : OpCode → Bool
is_control op_close = true
is_control op_ping = true
is_control op_pong = true
is_control op = false

abbrev pub is_known : OpCode → Bool
is_known (op_reserved n) = false
is_known op = true

unfoldable pub validate_frame : Frame → Bool
validate_frame f =
    if not (f.rsv == 0)
    then false
    else if not (is_known f.op_code)
    then false
    else not (is_control f.op_code && not f.fin)

-- The code of a close frame's payload of two bytes or more.
abbrev pub close_code : Bytes → ℕ
close_code [] = status_normal_closure
close_code (hi ∷ []) = status_normal_closure
close_code (hi ∷ lo ∷ reason) = hi * 256 + lo

-- Whether the payload has exactly one byte.
abbrev pub is_one_byte : Bytes → Bool
is_one_byte [] = false
is_one_byte (b ∷ []) = true
is_one_byte (b ∷ c ∷ s) = false

-- The handler of a close frame: its client, effects and whether it returns no error.
unfoldable pub handle_close_frame : Client → Bytes → Bool → Client × List Effect × Bool
unfolding close write_close_once
handle_close_frame cl payload write_ok =
    let received = record cl { close_rx = true } in
    if is_one_byte payload
    then write_close_once received status_protocol_error write_ok
    else (let (cl1, es1, ok) = write_close_once received (close_code payload) write_ok in
        let (cl2, es2) = close cl1 in (cl2, es1 ++ es2, ok))

-- `allow` is the answer of the limiter of control frames.
unfoldable pub handle_ping_frame : Client → Bytes → Bool → Bool → Client × List Effect × Bool
handle_ping_frame cl payload allow write_ok =
    if allow then (cl, writes_pong payload ∷ [], write_ok) else (cl, [], true)

unfoldable pub dispatch_frame : Client → Frame → ℕ → Bool → Bool → Client × List Effect × Bool
unfolding handle_close_frame handle_ping_frame
dispatch_frame cl f now allow write_ok = elim f.op_code [
  | op_text ↦ if f.fin then (cl, text_message f.payload ∷ [], true) else (cl, [], false)
  | op_binary ↦ if f.fin then (cl, bin_message f.payload ∷ [], true) else (cl, [], false)
  | op_continuation ↦ (cl, [], false)
  | op_close ↦ handle_close_frame cl f.payload write_ok
  | op_ping ↦ handle_ping_frame cl f.payload allow write_ok
  | op_pong ↦ (note_pong cl now, [], true)
  | op_reserved n ↦ (cl, [], false)
]

unfoldable pub handle_frame : Client → Frame → ℕ → Bool → Bool → Client × List Effect
unfolding dispatch_frame handle_protocol_error
handle_frame cl f now allow write_ok =
    let (cl1, es1, ok) = dispatch_frame cl f now allow write_ok in
    let (cl2, es2) = handle_protocol_error cl1 write_ok in
    if ok then (cl1, es1) else (cl2, es1 ++ es2)

-- What reading from the socket gives: the end, a failed header, a failed payload, a length above
-- `MaxFrameSize`, or a frame.
pub data ReadResult : Type 0 where
  peer_closed header_failed payload_failed too_large : ReadResult
  reads : Frame → ReadResult

abbrev pub failed_read : Client × List Effect → Client × List Effect
failed_read r = (r.0, read_failed ∷ r.1)

unfoldable pub process_client_message : Client → ReadResult → ℕ → Bool → Bool → Client × List Effect
unfolding validate_frame handle_frame handle_protocol_error close
process_client_message cl peer_closed now allow write_ok = close cl
process_client_message cl header_failed now allow write_ok = (cl, read_failed ∷ [])
process_client_message cl payload_failed now allow write_ok = failed_read (close cl)
process_client_message cl too_large now allow write_ok = handle_protocol_error cl write_ok
process_client_message cl (reads f) now allow write_ok =
    if validate_frame f
    then handle_frame (note_read cl now) f now allow write_ok
    else handle_protocol_error cl write_ok
