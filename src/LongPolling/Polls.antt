-- ===== src/LongPolling/Polls.antt =====
-- What polls are given, and how often a connection closes.
use go_pkg.Common.{ℕ, ◌≤◌, ◌≡◌, Bytes, List, [], ◌∷◌, ◌++◌, if◌then◌else◌, length}
use go_pkg.LongPolling.{
  LongPollingConn, lp_queue_size, Event, sends, polls, ticks, closes, expires, State,
}
use go_pkg.LongPolling.Moves.{messages_of, taken_by, held, Moves}

-- What an event publishes.
pub published : Event → List Bytes
published (sends payload ok) = if ok then payload ∷ [] else []
published (polls i ok) = []
published (ticks ok) = []
published (closes ok) = []
published expires = []

pub all_published : List Event → List Bytes
all_published [] = []
all_published (x ∷ xs) = published x ++ all_published xs

-- All that was in the queue or came into it has been taken, in its order, or is in the queue; a poll
-- holds what it has taken, 64 messages at most; and `onClose` is called with the first `Close`.
pub record Keeps (arrived : List Bytes) (s : State) : Type 0 where
  pub in_order : messages_of (s.0).taken ++ (s.0).queue ≡ arrived
  pub with_poll : (i : ℕ) → taken_by i (s.0).taken ≡ held (s.1 i)
  pub bounded : (i : ℕ) → length (held (s.1 i)) ≤ lp_queue_size
  pub closes_once : (s.0).closed_calls ≡ (if (s.0).closed then 1 else 0)

abbrev IsOnce : LongPollingConn → Type 0
IsOnce c = c.closed_calls ≡ (if c.closed then 1 else 0)
