-- ===== src/Examples/Sending.antt =====
-- Messages of clients, routing and delivery.
use mathlib.Core.List.{Memᴰ}
use go_pkg.Common.{
  ℕ, ◌≤◌, ◌<◌, ◌≡◌, ◌↔◌, ◌⊎◌, refl, Option, Bytes, true, false, ◌||◌, not, bytes, str_eq,
  if◌then◌else◌, none, some, List, [], ◌∷◌, length, arith,
}
use go_pkg.Domain.{Conn, connected, temp_disconnected}
use go_pkg.Connections.{get_connection, get_all_user_conn}
use go_pkg.Acks
use go_pkg.Acks.{AckManager, create_ack}
use go_pkg.Acks.Safety.{IsSound}
use go_pkg.MsgHub
use go_pkg.MsgHub.{Hub, is_registered}
use go_pkg.RateLimit
use go_pkg.Message.{WebsocketRequest}
use go_pkg.ClientMessages.Window.{msg_deduplicate_ttl, within, is_duplicate}
use go_pkg.ClientMessages.Window.Seen
use go_pkg.ClientMessages.Window.Seen.{asks, cleans, Call, last_passed, duplicate_by_history}
use go_pkg.ClientMessages.Handler
use go_pkg.ClientMessages.Handler.{
  Handler, AppResult, app_reply, Reply, Label, outcome_rate_limited, outcome_dedup, rate_limited,
  handle_app, handle_ack, dispatch, handle_message_bytes,
}
use go_pkg.ClientMessages.Handler.Totality.{handler_never_panics}
use go_pkg.Routing.{
  QueryResult, Routes, failing, record_not_found, find_session_conn, find_user_conn, is_nil,
}
use go_pkg.Routing.Containers.{AsksHolders, held_by, find_user_conn_exact}
use go_pkg.Routing.Sending
use go_pkg.Routing.Sending.{Message, session_with_ack, user_with_ack}
use go_pkg.Routing.Sending.Cleanup.{IsClean, NilAbroad, session_ack_cleaned_up}
use go_pkg.Delivery.{Effect, sends, submits_save, saves, wrap_bytes, send_to_user}
use go_pkg.Delivery.Saving.{
  Found, row, saved, save_message_hub, max_retry_number, sum, IsFoundAway, saved_iff_away,
}
use go_pkg.Delivery.Reach.{send_to_user_reaches}
use go_pkg.Examples.Sessions.{
  ann_tab, two_sessions, two_sessions-IsWellFormed, no_acks-IsSound, limits,
}

abbrev outside : Handler.World
outside = record {
  now = 1000;
  res_id = bytes "r1";
  allow = λ lim. true;
  app = λ msg_type payload. app_reply msg_type payload;
  closes_with_reason = λ conn. true;
  schema_error_text = λ e. bytes "schema";
  rate_limit_text = bytes "limit";
}

abbrev fresh : Handler.Handler
fresh = record {
  hb_throttle = [];
  deduplicator = [];
  ack_manager = Acks.new;
  rate_limiter = RateLimit.empty;
  connection_mgr = two_sessions;
}

abbrev hi : WebsocketRequest
hi = record { id = bytes "1"; msg_type = bytes "hi"; binary = [] }

handler_never_panics_example :
    (r : Reply) × (h : Handler.Handler) × (handle_message_bytes limits outside fresh ann_tab
        (17 ∷ 200 ∷ 104 ∷ [])
      ≡ some (r, h))
    × IsSound h.ack_manager
handler_never_panics_example =
    handler_never_panics limits outside fresh ann_tab (17 ∷ 200 ∷ 104 ∷ []) no_acks-IsSound

abbrev calls : List Seen.Call
calls = asks (bytes "k") 5 ∷ cleans 130000 ∷ []

duplicate_by_history_example :
    (is_duplicate (Seen.run [] calls) 130001 (bytes "k")).0
    ≡ within msg_deduplicate_ttl 130001 (last_passed (bytes "k") none calls)
unfolding Seen.IsOrdered Seen.at Seen.end
duplicate_by_history_example =
    duplicate_by_history (bytes "k") calls 130001 (omega arith, (omega arith, tt)) (omega arith)

abbrev waiting : Handler.Handler
waiting = record fresh { ack_manager = (create_ack Acks.new (bytes "x")).2 }

abbrev rows : QueryResult
rows = record {
  rows =
      record { user_id = bytes "ann"; instance_id = bytes "tab"; holder_id = bytes "c1" }
      ∷ record { user_id = bytes "ann"; instance_id = bytes "tv"; holder_id = bytes "c2" }
      ∷ record { user_id = bytes "ann"; instance_id = bytes "pc"; holder_id = bytes "c2" }
      ∷ [];
  error = none;
}

find_user_conn_exact_example :
    (r : Routes) × (find_user_conn two_sessions (bytes "c1") (bytes "ann") rows ≡ some r)
    × AsksHolders (bytes "c1") rows.rows r.containers
    × (r.local_action ≡ (
        not (is_nil (get_all_user_conn two_sessions (bytes "ann")))
        || held_by (bytes "c1") rows.rows))
find_user_conn_exact_example =
    find_user_conn_exact two_sessions (bytes "c1") (bytes "ann") rows refl

abbrev send_world : Sending.World
send_world = record {
  container_id = bytes "c1";
  nano_id = bytes "x";
  id = bytes "m1";
  send_ok = λ conn. true;
  save_ok = true;
}

abbrev news : Message
news = record { msg_type = bytes "news"; payload = some (1 ∷ []) }

session_ack_cleaned_up_example :
    IsClean
      (NilAbroad news (
        find_session_conn two_sessions (bytes "ann") (bytes "tab") true (failing record_not_found)))
      (bytes "ack_x")
      0
      ((session_with_ack two_sessions Acks.new send_world ann_tab news
        (failing record_not_found)).stage)
unfolding create_ack
session_ack_cleaned_up_example =
    session_ack_cleaned_up two_sessions Acks.new send_world ann_tab news (failing record_not_found)
      no_acks-IsSound (refl, refl)

-- Every send fails.
abbrev failed_news : List Effect
failed_news =
    send_to_user two_sessions MsgHub.new (λ conn. false) (bytes "m1") (bytes "ann") (bytes "news")
      (1 ∷ [])

abbrev wrapped_news : Option Bytes
wrapped_news = wrap_bytes (bytes "m1") [] (bytes "news") (1 ∷ [])

send_to_user_reaches_example :
    ((get_connection two_sessions ann_tab ≡ none)
      ⊎ ((c : Conn) × (get_connection two_sessions ann_tab ≡ some c)
          × Memᴰ (sends c wrapped_news) failed_news
          × ((false ≡ true) ⊎ Memᴰ (submits_save c.auth wrapped_news) failed_news)))
    × ((is_registered MsgHub.new (bytes "ann") (bytes "tab") ≡ false)
        ⊎ Memᴰ (saves (bytes "ann") (bytes "tab") wrapped_news) failed_news)
send_to_user_reaches_example =
    send_to_user_reaches two_sessions MsgHub.new (λ conn. false) (bytes "m1") (bytes "ann")
      (bytes "news") (1 ∷ []) (bytes "tab") two_sessions-IsWellFormed refl

-- Connected at the first attempt, away at the second.
abbrev answers : ℕ → Found
answers i = if str_eq (i ∷ []) (0 ∷ []) then row connected else row temp_disconnected

saved_iff_away_example :
    let (waits, fate) = save_message_hub answers max_retry_number 0 in
    ((fate ≡ saved) ↔ ((n : ℕ) × (n < max_retry_number) × IsFoundAway answers 0 n))
    × (length waits ≤ max_retry_number)
    × (sum waits ≤ 10500)
saved_iff_away_example = saved_iff_away answers
