-- ===== src/Examples/Endpoints.antt =====
-- Sessions that come and go, move between containers and are handed over.
use go_pkg.Common.{
  ℕ, ◌+◌, ◌≤◌, ◌≡◌, refl, Bool, true, false, ◌&&◌, ◌||◌, not, Bytes, bytes, is_empty, is_some,
  if◌then◌else◌, Option, none, some, List, [], ◌∷◌, ◌++◌, arith,
}
use go_pkg.Common.Table.{get, put}
use go_pkg.Common.Nested.{get2, put2}
use go_pkg.Domain.{
  Auth, Conn, Status, connected, temp_disconnected, transferring, gobwas, is_anonymous,
}
use go_pkg.Connections
use go_pkg.Connections.{ConnectionMap, get_connection, add_connection}
use go_pkg.Connections.WellFormed.{new-IsWellFormed, add_connection-IsWellFormed}
use go_pkg.Acks
use go_pkg.MsgHub
use go_pkg.Delivery
use go_pkg.Delivery.{wrap_bytes}
use go_pkg.ActiveConns.{Rows, Row, is_fresh}
use go_pkg.Lifecycle.{
  Env, no_faults, Container, World, Effect, signals_disconnect, counts_accepted, started, on_new,
  accepted, on_close, on_expired, close_existing, previous_row,
}
use go_pkg.Lifecycle.Admission.{has_empty_part, finds_connected, is_panic, on_new_panics_iff}
use go_pkg.Lifecycle.Admitted.{IsAdmitted, on_new_admits}
use go_pkg.Lifecycle.Moves.{timer_of, moved_session_loses_row}
use go_pkg.Lifecycle.Sessions.{
  Event, opens, leaves, beats, expires, run, phase, absent, live, Agrees,
}
use go_pkg.Lifecycle.Sessions.Phases.{fresh_world, sessions_follow_phases}
use go_pkg.Services.{service_panicked, instance_of, send_to_session, done}
use go_pkg.Services.Reach.{IsHandled, session_message_arrives}
use go_pkg.Shutdown.{Ended, shutdown}
use go_pkg.Shutdown.Keyed.{new-IsKeyed, add_connection-IsKeyed}
use go_pkg.Shutdown.Handover.{shutdown_hands_over}
use go_pkg.Examples.Sessions.{ann_phone, phone, no_acks-IsSound}

abbrev pub env : Env
env = record {
  limits = record { user_rate = 30; user_burst = 60; anonymous_rate = 5; anonymous_burst = 10 };
  heartbeat_cutoff = 60;
}

abbrev a_day : List Event
a_day =
    opens phone 10 []
    ∷ beats ann_phone 40
    ∷ leaves ann_phone 50
    ∷ expires (bytes "ann") (bytes "phone")
    ∷ []

sessions_follow_phases_example :
    Agrees (run env (fresh_world (bytes "c1")) a_day) ann_phone (phase ann_phone absent a_day)
unfolding is_anonymous get2 get
sessions_follow_phases_example =
    sessions_follow_phases env (bytes "c1") ann_phone a_day refl refl (λ row at. cc, tt)

on_new_admits_example :
    (after : World) × (effects : List Effect) × (on_new env
        (fresh_world (bytes "c1"))
        phone
        10
        no_faults
        []
      ≡ accepted after effects)
    × IsAdmitted (fresh_world (bytes "c1")) phone 10 after
on_new_admits_example = on_new_admits env (fresh_world (bytes "c1")) phone 10 no_faults [] refl refl

-- An anonymous session that is live at the first container.
abbrev guest : Auth
guest = record { user_id = []; instance_id = bytes "g" }

abbrev guest_conn : Conn
guest_conn = record { auth = guest; core_type = gobwas; handle = 7 }

abbrev row_of : Status → ℕ → Row
row_of s seen = record {
  holder_id = bytes "c1";
  connection_type = gobwas;
  status = s;
  connected_at = seen;
  last_heartbeat = seen;
  ttl = seen + 61;
}

abbrev guest_at_first : World
guest_at_first = record {
  here = started (bytes "c2");
  rows = put2 [] (bytes "g") (row_of connected 10) [];
}

on_new_panics_iff_example : is_panic (on_new env guest_at_first guest_conn 20 no_faults []) ≡ (
    has_empty_part guest
    && finds_connected
        (previous_row env (close_existing guest_at_first guest 20 no_faults).0.rows guest 20 true))
on_new_panics_iff_example = on_new_panics_iff env guest_at_first guest_conn 20 no_faults []

-- Ann's phone, away from the first container since more than the cutoff.
abbrev long_away : World
long_away = record {
  here = record (started (bytes "c1")) {
    hub = record MsgHub.new { registry = put2 (bytes "ann") (bytes "phone") 1 []; gen_seq = 1 };
  };
  rows = put2 (bytes "ann") (bytes "phone") (row_of temp_disconnected 10) [];
}

abbrev first_container : Container
first_container = record (started (bytes "c1")) { conns = add_connection Connections.new phone }

abbrev ann_rows : Rows
ann_rows = put2 (bytes "ann") (bytes "phone") (row_of connected 10) []

moved_session_loses_row_example :
    (after : World) × (on_new env
        (record { here = started (bytes "c2"); rows = ann_rows })
        phone
        20
        no_faults
        []
      ≡ accepted after (signals_disconnect (bytes "c1") ∷ counts_accepted ∷ []))
    × (Delivery.disconnect_session first_container.conns (bytes "ann") (bytes "phone")
        ≡ some (Delivery.closes phone ∷ []))
    × (let left =
          (on_close
            (record { here = first_container; rows = after.rows })
            ann_phone
            30
            no_faults).0 in
        let expired = on_expired left (timer_of ann_phone (first_container.hub.gen_seq + 1)) true in
        (get2 (bytes "ann") (bytes "phone") left.here.hub.registry
          ≡ some (first_container.hub.gen_seq + 1))
        × (get2 (bytes "ann") (bytes "phone") expired.rows ≡ none)
        × (get_connection after.here.conns ann_phone ≡ some phone))
unfolding get2 put2 get put get_connection is_fresh is_anonymous add_connection go_pkg.Common.str_eq
moved_session_loses_row_example =
    moved_session_loses_row env first_container (started (bytes "c2")) ann_rows phone phone 20 30
      (row_of connected 10) refl refl refl refl refl refl refl refl refl

-- The first container, where Ann's phone is live, and a second one that has a message for it.
abbrev first : World
first = record { here = first_container; rows = ann_rows }

session_message_arrives_example :
    (send_to_session Connections.new MsgHub.new
        (λ c. true)
        (instance_of ann_rows 60 40 (bytes "ann") (bytes "phone") true)
        (bytes "1")
        (bytes "ann")
        (bytes "phone")
        (bytes "news")
        (some (bytes "hello"))
      ≡ done [] (bytes "c1" ∷ []))
    × (send_to_session Connections.new MsgHub.new
          (λ c. true)
          (instance_of ann_rows 60 40 (bytes "ann") (bytes "phone") true)
          (bytes "1")
          (bytes "ann")
          (bytes "phone")
          (bytes "news")
          none
        ≡ service_panicked [])
    × IsHandled
        (λ c. true)
        first
        ann_phone
        (wrap_bytes (bytes "1") [] (bytes "news") (bytes "hello"))
        (Delivery.send_to_session first_container.conns first_container.hub
          (λ c. true)
          (bytes "1")
          (bytes "ann")
          (bytes "phone")
          (bytes "news")
          (bytes "hello"))
        live
unfolding get2 put2 get put get_connection is_fresh is_anonymous add_connection go_pkg.Common.str_eq
session_message_arrives_example =
    session_message_arrives (λ c. true) (bytes "1") ann_phone (bytes "news") (bytes "hello")
      (started (bytes "c2")) first live 60 40 refl tt
      ((row_of connected 10, refl, refl, refl), refl, refl) (λ row at. ground (arith, at)) refl refl

shutdown_hands_over_example :
    (r : Ended) × (shutdown first Acks.new (λ c. true) 20 no_faults ≡ some r)
    × (r.acks.pending ≡ [])
    × ((b : Auth) → get_connection r.world.here.conns b ≡ none)
    × (get2 (bytes "ann") (bytes "phone") r.world.rows
        ≡ some (record (row_of connected 10) { status = transferring; holder_id = [] }))
    × (get2 (bytes "ann") (bytes "phone") r.world.here.hub.registry
        ≡ get2 (bytes "ann") (bytes "phone") first_container.hub.registry)
unfolding get2 put2 get put get_connection is_anonymous add_connection go_pkg.Common.str_eq
shutdown_hands_over_example =
    shutdown_hands_over first Acks.new 20 no_faults ann_phone phone (row_of connected 10)
      no_acks-IsSound (add_connection-IsWellFormed Connections.new phone new-IsWellFormed)
      (add_connection-IsKeyed Connections.new phone new-IsKeyed) refl refl refl
