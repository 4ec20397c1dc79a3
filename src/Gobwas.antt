-- ===== src/Gobwas.antt =====
-- The websocket server on netpoll: core/service/websocket/server/gobwas. The sockets, the poller and
-- the frame reader are outside: what they answer is an argument, and what the server does to them and
-- whom it calls is the list of effects. A connection's `close` is one step, as the first of several
-- callers wins the compare-and-swap.
pub mod Frames
pub mod Slots
pub mod Pings
pub mod Polling
use go_pkg.Common.{
  ℕ, suc, ◌+◌, ◌-◌, ◌*◌, Bool, true, false, Bytes, Option, none, some, List, [], ◌∷◌, ◌++◌,
  if◌then◌else◌, ltb, leb, ◌==◌,
}

pub record Client : Type 0 where
  pub closed : Bool
  pub close_tx : Bool
  pub close_rx : Bool
  pub last_read_at : ℕ
  pub last_ping_at : ℕ
  pub last_pong_at : ℕ
  pub awaiting_pong : Bool

pub data Effect : Type 0 where
  writes_close : ℕ → Effect
  writes_pong : Bytes → Effect
  writes_ping : Effect
  writes_binary : Bytes → Effect
  text_message bin_message : Bytes → Effect
  read_failed : Effect
  write_failed : Effect
  on_close : Effect
  on_close_connection : Effect

abbrev pub status_normal_closure : ℕ
status_normal_closure = 1000

abbrev pub status_protocol_error : ℕ
status_protocol_error = 1002

-- `removeClient` and `Close`; the callback of the environment runs at each call.
unfoldable pub remove_client : Client → Client × List Effect
remove_client cl = if cl.closed then (cl, []) else (record cl { closed = true }, on_close ∷ [])

unfoldable pub close : Client → Client × List Effect
unfolding remove_client
close cl = let (cl', es) = remove_client cl in (cl', es ++ on_close_connection ∷ [])

-- The close frame's write, if this is the first, with its error.
unfoldable pub write_close_once : Client → ℕ → Bool → Client × List Effect × Bool
write_close_once cl code write_ok =
    if cl.close_tx
    then (cl, [], true)
    else (record cl { close_tx = true }, writes_close code ∷ [], write_ok)

unfoldable pub handle_protocol_error : Client → Bool → Client × List Effect
unfolding close write_close_once
handle_protocol_error cl write_ok =
    let (cl1, es1, ok) = write_close_once cl status_protocol_error write_ok in
    let (cl2, es2) = close cl1 in (cl2, es1 ++ es2)

unfoldable pub close_with_reason : Client → ℕ → Bool → Client × List Effect
unfolding close write_close_once
close_with_reason cl code write_ok =
    let (cl1, es1, ok) = write_close_once cl code write_ok in
    let (cl2, es2) = close cl1 in (cl2, es1 ++ es2)

unfoldable pub note_read : Client → ℕ → Client
note_read cl now = record cl { last_read_at = now; awaiting_pong = false }

unfoldable pub note_pong : Client → ℕ → Client
note_pong cl now = record cl { last_read_at = now; last_pong_at = now; awaiting_pong = false }

pub data PingAction : Type 0 where
  skip_ping send_ping close_peer : PingAction

unfoldable pub next_ping_action : ℕ → ℕ → Client → ℕ → PingAction × Client
next_ping_action ping_idle_after pong_timeout cl now =
    if cl.awaiting_pong
    then (if leb (cl.last_ping_at + pong_timeout) now then (close_peer, cl) else (skip_ping, cl))
    else if ltb now (cl.last_read_at + ping_idle_after)
    then (skip_ping, cl)
    else (send_ping, record cl { awaiting_pong = true; last_ping_at = now })

unfoldable pub sent_ping : Client → Bool → Client × List Effect
unfolding close
sent_ping cl write_ok =
    if write_ok
    then (cl, writes_ping ∷ [])
    else (let (cl', es) = close cl in (cl', writes_ping ∷ write_failed ∷ es))

-- The frame of a message, and whether `send` returns no error.
unfoldable pub send : Client → Bytes → Bool → Client × List Effect × Bool
unfolding close
send cl payload write_ok =
    if write_ok
    then (cl, writes_binary payload ∷ [], true)
    else (let (cl', es) = close cl in (cl', writes_binary payload ∷ write_failed ∷ es, false))

-- The task that `ping` submits.
unfoldable pub ping : ℕ → ℕ → Client → ℕ → Bool → Client × List Effect
unfolding close sent_ping
ping ping_idle_after pong_timeout cl now write_ok =
    let (action, cl') = next_ping_action ping_idle_after pong_timeout cl now in
    elim action [
      | skip_ping ↦ (cl', [])
      | close_peer ↦ close cl'
      | send_ping ↦ sent_ping cl' write_ok
    ]

-- `reserveSlot`, with the loop's compare-and-swap as one step; 0 stands for no cap.
unfoldable pub reserve_slot : ℕ → ℕ → ℕ × Bool
reserve_slot max_conns connections =
    if max_conns == 0
    then (connections + 1, true)
    else if leb max_conns connections
    then (connections, false)
    else (connections + 1, true)
