-- ===== src/LongPolling.antt =====
-- The connections without a socket: core/service/websocket/mediator/delivery/3.long_polling.go and
-- 4.long_polling_send.go. The queue of a session is a list behind pkg/queue, a key of valkey: `Publish` adds at
-- its end and both fetches take from its front. Whether a call of it fails is an argument. A poll is a sequence of its
-- operations on the connection, between which all else may run.
pub mod Moves
pub mod Polls
use go_pkg.Common.{
  ℕ, zero, suc, ◌+◌, ◌-◌, Bool, true, false, ◌&&◌, ◌||◌, not, Bytes, bytes, is_empty, Option, none,
  some, List, [], ◌∷◌, ◌++◌, if◌then◌else◌, take, drop, length, ◌==◌,
}
use go_pkg.Domain.{Auth, is_anonymous, Conn, CoreType, gobwas, long_polling}

abbrev pub lp_queue_size : ℕ
lp_queue_size = 64

-- `lpChannelName`.
unfoldable pub lp_channel_name : Auth → Bytes
lp_channel_name a =
    if is_anonymous a
    then bytes "lp:anon:" ++ a.instance_id
    else bytes "lp:" ++ (a.user_id ++ (bytes ":" ++ a.instance_id))

-- `idle_timer` and `ttl` count the seconds that are left, of the timer and of the queue's key; `closed_calls`
-- the calls of `onCloseFn`. `taken` is a ghost list of what left the queue, in its order, each message with the poll that
-- took it or `none` where it went with its key.
pub record LongPollingConn : Type 0 where
  pub queue : List Bytes
  pub ttl : Option ℕ
  pub closed : Bool
  pub idle_timer : Option ℕ
  pub closed_calls : ℕ
  pub taken : List (Bytes × Option ℕ)

abbrev pub new : LongPollingConn
new = record {
  queue = [];
  ttl = none;
  closed = false;
  idle_timer = none;
  closed_calls = 0;
  taken = [];
}

abbrev pub is_nil : List Bytes → Bool
is_nil [] = true
is_nil (m ∷ ms) = false

-- `RPUSH`: a new key has no TTL.
unfoldable pub send : LongPollingConn → Bytes → Bool → LongPollingConn × Bool
send c payload ok = if ok then (record c { queue = c.queue ++ payload ∷ [] }, true) else (c, false)

-- `EXPIRE` of a key that is there.
unfoldable pub set_channel_ttl : LongPollingConn → ℕ → Bool → LongPollingConn
set_channel_ttl c seconds ok =
    if ok && not (is_nil c.queue) then record c { ttl = some seconds } else c

abbrev pub closed_ttl : ℕ
closed_ttl = 60

-- `Close`: what is in the queue stays there until its TTL.
unfoldable pub close : LongPollingConn → Bool → LongPollingConn
unfolding set_channel_ttl
close c ok =
    let closed = record c { closed = true; idle_timer = none; closed_calls = c.closed_calls + 1 } in
    if c.closed then c else set_channel_ttl closed closed_ttl ok

unfoldable pub stop_idle_timer : LongPollingConn → LongPollingConn
stop_idle_timer c = record c { idle_timer = none }

abbrev pub lp_idle_timeout : ℕ
lp_idle_timeout = 5

abbrev pub lp_channel_ttl : ℕ
lp_channel_ttl = 600

unfoldable pub reset_idle_timer : LongPollingConn → LongPollingConn
reset_idle_timer c = if c.closed then c else record c { idle_timer = some lp_idle_timeout }

unfoldable pub tagged : Option ℕ → List Bytes → List (Bytes × Option ℕ)
tagged by [] = []
tagged by (m ∷ ms) = (m, by) ∷ tagged by ms

-- The first `n` messages leave the queue; an empty list is no key and has no TTL.
unfoldable pub remove : LongPollingConn → ℕ → Option ℕ → LongPollingConn
unfolding tagged
remove c n by = record c {
  queue = drop n c.queue;
  ttl = if is_nil (drop n c.queue) then none else c.ttl;
  taken = c.taken ++ tagged by (take n c.queue);
}

-- A second of the queue's key: with its TTL all that it holds goes.
unfoldable pub expire : LongPollingConn → LongPollingConn
unfolding remove
expire c = elim c.ttl [
  | none ↦ c
  | some zero ↦ remove c (length c.queue) none
  | some (suc zero) ↦ remove c (length c.queue) none
  | some (suc (suc n)) ↦ record c { ttl = some (suc n) }
]

-- A second of the timer, which closes the connection at its end.
unfoldable pub tick : LongPollingConn → Bool → LongPollingConn
unfolding close
tick c ok = elim c.idle_timer [
  | none ↦ c
  | some zero ↦ close c ok
  | some (suc zero) ↦ close c ok
  | some (suc (suc n)) ↦ record c { idle_timer = some (suc n) }
]

-- `FetchMany` of at most `n` by a poll: `LPOP key n`.
unfoldable pub fetch_many : LongPollingConn → ℕ → ℕ → Bool → List Bytes × LongPollingConn
unfolding remove
fetch_many c poll n ok = if ok then (take n c.queue, remove c n (some poll)) else ([], c)

-- `BlockFetchOne` at its end, when a message is there or the time is over: an empty message is not nil.
unfoldable pub block_fetch_one : LongPollingConn → ℕ → Bool → Option Bytes × LongPollingConn
unfolding remove
block_fetch_one c poll ok = elim c.queue [
  | [] ↦ (none, c)
  | m ∷ queue ↦ if ok then (some m, remove c 1 (some poll)) else (none, c)
]

pub data PollReply : Type 0 where
  messages : List Bytes → PollReply
  no_content gone : PollReply

-- Step 6: no messages are 410 on a closed connection and 204 on an open one.
unfoldable pub reply_of : Bool → List Bytes → PollReply
reply_of closed [] = if closed then gone else no_content
reply_of closed (m ∷ ms) = messages (m ∷ ms)

-- Where a poll of a connection that is found stands, from step 3 on, with the messages it has taken.
pub data PollStage : Type 0 where
  found_conn paused waiting : PollStage
  got_first : Bytes → PollStage
  drained rearmed refreshed : List Bytes → PollStage
  replied : PollReply → PollStage

-- `drainOrWait` after its first fetch, and after its wait.
abbrev pub first_drained : List Bytes → PollStage
first_drained [] = waiting
first_drained (m ∷ ms) = drained (m ∷ ms)

abbrev pub after_wait : Option Bytes → PollStage
after_wait none = drained []
after_wait (some m) = got_first m

-- One operation of a poll; others run between them, other polls of the connection included.
unfoldable pub poll : LongPollingConn → ℕ → PollStage → Bool → LongPollingConn × PollStage
unfolding stop_idle_timer fetch_many block_fetch_one reset_idle_timer set_channel_ttl reply_of
poll c i found_conn ok = (stop_idle_timer c, paused)
poll c i paused ok = let r = fetch_many c i lp_queue_size ok in (r.1, first_drained r.0)
poll c i waiting ok = let r = block_fetch_one c i ok in (r.1, after_wait r.0)
poll c i (got_first m) ok =
    let r = fetch_many c i (lp_queue_size - 1) ok in (r.1, drained (m ∷ r.0))
poll c i (drained ms) ok = (reset_idle_timer c, rearmed ms)
poll c i (rearmed ms) ok = (set_channel_ttl c lp_channel_ttl ok, refreshed ms)
poll c i (refreshed ms) ok = (c, replied (reply_of c.closed ms))
poll c i (replied r) ok = (c, replied r)

-- What a poll finds in the connection map.
pub data Found : Type 0 where
  first_poll subsequent_poll conflict : Found

unfoldable pub find_lp_conn : Option Conn → Found
find_lp_conn none = first_poll
find_lp_conn (some conn) = elim conn.core_type [
  | long_polling ↦ subsequent_poll
  | gobwas ↦ conflict
]

-- The answers of the endpoint that sends, in its order of checks; the body is read up to 1 MB.
pub data SendReply : Type 0 where
  accepted not_found wrong_transport session_gone unreadable empty_body : SendReply

unfoldable pub lp_send : Option (Conn × Bool) → Option Bytes → SendReply
lp_send none body = not_found
lp_send (some (conn, closed)) body = elim conn.core_type [
  | gobwas ↦ wrong_transport
  | long_polling ↦
      if closed
      then session_gone
      else elim body [ none ↦ unreadable | some b ↦ if is_empty b then empty_body else accepted ]
]

pub data Event : Type 0 where
  sends : Bytes → Bool → Event
  polls : ℕ → Bool → Event
  ticks closes : Bool → Event
  expires : Event

-- The connection and its polls, by their numbers.
abbrev pub State : Type 0
State = LongPollingConn × (ℕ → PollStage)

abbrev pub none_started : ℕ → PollStage
none_started i = found_conn

abbrev pub put_stage : (ℕ → PollStage) → ℕ → PollStage → ℕ → PollStage
put_stage stages i stage j = if j == i then stage else stages j

unfoldable pub step : State → Event → State
unfolding send poll tick close expire
step (c, stages) (sends payload ok) = ((send c payload ok).0, stages)
step (c, stages) (polls i ok) = let r = poll c i (stages i) ok in (r.0, put_stage stages i r.1)
step (c, stages) (ticks ok) = (tick c ok, stages)
step (c, stages) (closes ok) = (close c ok, stages)
step (c, stages) expires = (expire c, stages)

unfoldable pub run : State → List Event → State
run s [] = s
run s (x ∷ xs) = run (step s x) xs
