-- ===== src/Examples/Sessions.antt =====
-- Connections, acks, registrations and limiters.
use go_pkg.Common.{◌≡◌, ◌↔◌, true, Bytes, bytes, is_some, none, some, List, [], ◌∷◌}
use go_pkg.Common.Table.{get}
use go_pkg.Common.Nested.{get2}
use go_pkg.Domain.{Auth, Conn, gobwas}
use go_pkg.Connections
use go_pkg.Connections.{
  ConnectionMap, add_connection, remove_connection, get_connection, get_all_user_conn,
  get_all_connections,
}
use go_pkg.Connections.WellFormed.{IsWellFormed, adds, changes, changes-IsWellFormed}
use go_pkg.Acks
use go_pkg.Acks.{
  AckManager, AckEvent, creates, resolves, times_out, shuts_down, create_ack, resolve_ack,
  wait_for_ack, shutdown,
}
use go_pkg.Acks.Safety.{IsSound, run_never_panics}
use go_pkg.MsgHub
use go_pkg.MsgHub.{Timer, Hub, is_registered, expire, HubOp, registers, deregisters, expires}
use go_pkg.MsgHub.Registry.{owner, registry_by_history}
use go_pkg.RateLimit
use go_pkg.RateLimit.{
  Present, present, Env, Limiter, RateLimiter, get_limiter, lookup, remove, news, gets, removes,
}
use go_pkg.RateLimit.Sessions.{limiter_iff_session}

abbrev pub ann_phone : Auth
ann_phone = record { user_id = bytes "ann"; instance_id = bytes "phone" }

abbrev pub ann_tab : Auth
ann_tab = record { user_id = bytes "ann"; instance_id = bytes "tab" }

abbrev pub phone : Conn
phone = record { auth = ann_phone; core_type = gobwas; handle = 1 }

abbrev pub tab : Conn
tab = record { auth = ann_tab; core_type = gobwas; handle = 2 }

abbrev pub two_sessions : ConnectionMap
two_sessions = changes Connections.new (adds phone ∷ adds tab ∷ [])

pub two_sessions-IsWellFormed : IsWellFormed two_sessions
two_sessions-IsWellFormed = changes-IsWellFormed (adds phone ∷ adds tab ∷ [])

abbrev ack_events : List AckEvent
ack_events =
    creates (bytes "x")
    ∷ creates (bytes "x")
    ∷ resolves (bytes "ack_x")
    ∷ times_out (bytes "ack_x") 0
    ∷ shuts_down
    ∷ []

run_never_panics_example : (m : AckManager) × (Acks.run Acks.new ack_events ≡ some m) × IsSound m
run_never_panics_example = run_never_panics ack_events

pub no_acks-IsSound : IsSound Acks.new
no_acks-IsSound = record { unique = tt; open_channels = tt; pending_made = tt; closed_made = tt }

abbrev one_ack : AckManager
one_ack = (create_ack Acks.new (bytes "x")).2

-- Another ack is resolved meanwhile, and this one's waiter waits on.
abbrev two_acks : AckManager
two_acks = (create_ack one_ack (bytes "y")).2

abbrev hub_ops : List HubOp
hub_ops =
    registers (bytes "ann") (bytes "tab")
    ∷ registers (bytes "ann") (bytes "tab")
    ∷ expires (record { user_id = bytes "ann"; instance_id = bytes "tab"; gen = 1 })
    ∷ []

registry_by_history_example :
    (get2 (bytes "ann") (bytes "tab") ((MsgHub.run MsgHub.new hub_ops).registry)
      ≡ owner (bytes "ann") (bytes "tab") none 0 hub_ops)
    × (is_registered (MsgHub.run MsgHub.new hub_ops) (bytes "ann") (bytes "tab")
        ≡ is_some (owner (bytes "ann") (bytes "tab") none 0 hub_ops))
registry_by_history_example = registry_by_history (bytes "ann") (bytes "tab") hub_ops

abbrev late_timer : Timer
late_timer = record { user_id = bytes "ann"; instance_id = bytes "tab"; gen = 1 }

abbrev pub limits : Env
limits = record { user_rate = 10; user_burst = 20; anonymous_rate = 1; anonymous_burst = 2 }

abbrev one_limiter : RateLimiter
one_limiter = RateLimit.run limits RateLimit.empty (news ann_phone ∷ news ann_tab ∷ [])

limiter_iff_session_example :
    (is_some (get (bytes "ann") one_limiter.user_limiter) ≡ true)
    ↔ ((i : Bytes) × (get2 (bytes "ann") i one_limiter.user_sessions ≡ some present))
limiter_iff_session_example =
    limiter_iff_session limits (news ann_phone ∷ news ann_tab ∷ []) (bytes "ann")
