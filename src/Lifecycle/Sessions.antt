-- ===== src/Lifecycle/Sessions.antt =====
-- The life of a named session as the callbacks keep it, against three phases. One container has
-- the table for itself and no statement fails.
pub mod Others
pub mod Opening
pub mod Steps
pub mod Phases
use go_pkg.Common.{
  ℕ, Bool, true, ◌≡◌, Bytes, Option, none, some, List, [], ◌∷◌, if◌then◌else◌, is_some, is_empty,
}
use go_pkg.Common.Nested.{get2}
use go_pkg.Domain.{Auth, same_session, Conn, Status, connected, temp_disconnected}
use go_pkg.Connections.{get_connection}
use go_pkg.ActiveConns.{Row, update_heart_beat, is_fresh}
use go_pkg.Lifecycle.{
  Env, no_faults, World, on_close, on_expired, on_new, NewOutcome, accepted, refused, panics,
}

-- `expires` is the timer of the registration that stands.
pub data Event : Type 0 where
  opens : Conn → ℕ → List Bytes → Event
  leaves : Auth → ℕ → Event
  beats : Auth → ℕ → Event
  expires : Bytes → Bytes → Event

abbrev pub world_of : NewOutcome → World
world_of (accepted w effects) = w
world_of (refused w effects) = w
world_of (panics w) = w

pub step : Env → World → Event → World
step e w (opens conn now pending) = world_of (on_new e w conn now no_faults pending)
step e w (leaves a now) = elim (get_connection w.here.conns a) [
  | none ↦ w
  | some conn ↦ (on_close w a now no_faults).0
]
step e w (beats a now) = record w { rows = update_heart_beat w.rows a.user_id a.instance_id now }
step e w (expires u i) = elim (get2 u i w.here.hub.registry) [
  | none ↦ w
  | some g ↦ on_expired w (record { user_id = u; instance_id = i; gen = g }) true
]

pub run : Env → World → List Event → World
run e w [] = w
run e w (x ∷ xs) = run e (step e w x) xs

-- A session that connects again does so while its row, where it has one, is fresh.
abbrev pub Timely : Env → World → List Event → Type 0
Timely e w [] = Unit {0}
Timely e w (opens conn now pending ∷ xs) =
    ((row : Row)
      → get2 conn.auth.user_id conn.auth.instance_id w.rows ≡ some row
      → is_fresh e.heartbeat_cutoff now row ≡ true)
    × Timely e (step e w (opens conn now pending)) xs
Timely e w (leaves a now ∷ xs) = Timely e (step e w (leaves a now)) xs
Timely e w (beats a now ∷ xs) = Timely e (step e w (beats a now)) xs
Timely e w (expires u i ∷ xs) = Timely e (step e w (expires u i)) xs

pub data Phase : Type 0 where
  absent live away : Phase

abbrev pub left_behind : Phase → Phase
left_behind live = away
left_behind p = p

abbrev pub timed_out : Phase → Phase
timed_out away = absent
timed_out p = p

-- Whether an event is one of the session.
pub concerns : Event → Auth → Bool
concerns (opens conn now pending) a = same_session conn.auth a
concerns (leaves b now) a = same_session b a
concerns (beats b now) a = same_session b a
concerns (expires u i) a = same_session (record { user_id = u; instance_id = i }) a

pub phase_after : Phase → Event → Phase
phase_after p (opens conn now pending) = live
phase_after p (leaves b now) = left_behind p
phase_after p (beats b now) = p
phase_after p (expires u i) = timed_out p

-- What a session is in, by its events alone.
pub phase : Auth → Phase → List Event → Phase
phase a p [] = p
phase a p (x ∷ xs) = phase a (if concerns x a then phase_after p x else p) xs

-- What map, registry and table say of a session in each phase.
abbrev pub HasRow : World → Auth → Status → Type 0
HasRow w a s =
    (row : Row) × (get2 a.user_id a.instance_id w.rows ≡ some row)
    × (row.status ≡ s)
    × (row.holder_id ≡ w.here.id)

abbrev pub Agrees : World → Auth → Phase → Type 0
Agrees w a absent =
    (get2 a.user_id a.instance_id w.rows ≡ none)
    × (get_connection w.here.conns a ≡ none)
    × (get2 a.user_id a.instance_id w.here.hub.registry ≡ none)
Agrees w a live =
    HasRow w a connected
    × (is_some (get_connection w.here.conns a) ≡ true)
    × (get2 a.user_id a.instance_id w.here.hub.registry ≡ none)
Agrees w a away =
    HasRow w a temp_disconnected
    × (get_connection w.here.conns a ≡ none)
    × (is_some (get2 a.user_id a.instance_id w.here.hub.registry) ≡ true)
