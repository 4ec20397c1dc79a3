-- ===== src/Lifecycle/Admission.antt =====
-- The outcome of a new connection: when the callback panics.
use go_pkg.Common.{
  not, ℕ, Bool, true, false, ◌&&◌, ◌||◌, ◌≡◌, refl, Bytes, is_empty, str_eq_iff, Option, none, some,
  is_some, List, if◌then◌else◌, Bool-cases, Option-cases, inl, inr, arith, ◌∙◌,
}
use go_pkg.Domain.{Auth, is_anonymous, same_session, Conn, connected, user_websocket_auth}
use go_pkg.Connections
use go_pkg.Connections.{ConnectionMap, get_connection}
use go_pkg.Connections.Lookup.{get_connection-remove_connection}
use go_pkg.Routing.{find_session_conn}
use go_pkg.ActiveConns.{Row}
use go_pkg.Lifecycle.{
  Env, Faults, Container, World, Effect, on_close, forget, leave, close_existing,
  disconnect_session, resume_session, row_result, meet_row, meet_previous, previous_row, claim,
  on_new, NewOutcome, accepted, refused, panics,
}

pub conns-on_close :
    (w : World) (a : Auth) (now : ℕ) (f : Faults)
    → (on_close w a now f).0.here.conns ≡ Connections.remove_connection w.here.conns a
unfolding on_close forget leave
conns-on_close w a now f = ground arith

pub get_connection-same :
    (m : ConnectionMap) (a b : Auth)
    → same_session a b ≡ true
    → get_connection m b ≡ get_connection m a
unfolding same_session get_connection is_anonymous
get_connection-same m a b h =
    ground (arith, str_eq_iff a.user_id b.user_id, str_eq_iff a.instance_id b.instance_id)

-- Closing what was there takes the session out of the map, and no other.
pub get_connection-close_existing :
    (w : World) (a b : Auth) (now : ℕ) (f : Faults)
    → get_connection (close_existing w a now f).0.here.conns b
      ≡ (if same_session a b then none else get_connection w.here.conns b)
unfolding close_existing
get_connection-close_existing w a b now f = elim (Option-cases (get_connection w.here.conns a)) [
  | inl nothing ↦
      rw (nothing, close_existing)
        (elim (Bool-cases (same_session a b)) [
          | inl same ↦ rw same (get_connection-same w.here.conns a b same ∙ nothing)
          | inr other ↦ rw other refl
        ])
  | inr (old, e) ↦
      rw (e, close_existing, conns-on_close w a now f)
        (get_connection-remove_connection w.here.conns a b)
]

pub id-close_existing :
    (w : World) (a : Auth) (now : ℕ) (f : Faults) → (close_existing w a now f).0.here.id ≡ w.here.id
unfolding close_existing on_close forget leave
id-close_existing w a now f = ground arith

-- What the previous row leads to changes nothing but the hub.
abbrev pub KeepsMaps : Container → Option (Container × List Effect) → Type 0
KeepsMaps c none = Unit {0}
KeepsMaps c (some (c', effects)) =
    (c'.id ≡ c.id)
    × (c'.conns ≡ c.conns)
    × (c'.limiter ≡ c.limiter)
    × (c'.open_at ≡ c.open_at)
    × (c'.shutting_down ≡ c.shutting_down)

pub meet_previous-KeepsMaps :
    (c : Container) (a : Auth) (o : Option Row) → KeepsMaps c (meet_previous c a o)
unfolding meet_previous meet_row resume_session
meet_previous-KeepsMaps c a none = (refl, refl, refl, refl, refl)
meet_previous-KeepsMaps c a (some row) = ground arith

pub shutting_down-close_existing :
    (w : World) (a : Auth) (now : ℕ) (f : Faults)
    → (close_existing w a now f).0.here.shutting_down ≡ w.here.shutting_down
unfolding close_existing on_close forget leave
shutting_down-close_existing w a now f = ground arith

abbrev pub has_empty_part : Auth → Bool
has_empty_part a = is_empty a.user_id || is_empty a.instance_id

abbrev pub finds_connected : Option Row → Bool
finds_connected none = false
finds_connected (some row) = elim row.status [ connected ↦ true | _ ↦ false ]

disconnect_session-is_some :
    (c : Container) (a : Auth) (row : Row)
    → is_some (disconnect_session c a (row_result a (some row))) ≡ not (has_empty_part a)
unfolding disconnect_session find_session_conn user_websocket_auth
disconnect_session-is_some c a row = ground arith

pub meet_previous-is_some :
    (c : Container) (a : Auth) (o : Option Row)
    → is_some (meet_previous c a o) ≡ not (has_empty_part a && finds_connected o)
unfolding meet_previous meet_row
meet_previous-is_some c a none = ground arith
meet_previous-is_some c a (some row) = ground (arith, disconnect_session-is_some c a row)

abbrev pub is_panic : NewOutcome → Bool
is_panic (panics w) = true
is_panic (accepted w effects) = false
is_panic (refused w effects) = false

-- The callback of a new connection panics if and only if the session has an empty part, as every
-- anonymous one has, and the row that is found for it once an existing connection here is closed
-- says that it is connected.
pub on_new_panics_iff :
    (e : Env) (w : World) (conn : Conn) (now : ℕ) (f : Faults) (pending : List Bytes)
    → is_panic (on_new e w conn now f pending) ≡ (
        has_empty_part conn.auth
        && finds_connected
            (previous_row e (close_existing w conn.auth now f).0.rows conn.auth now f.get_ok))
unfolding on_new claim
on_new_panics_iff e w conn now f pending =
    let w' = (close_existing w conn.auth now f).0 in
    let o = previous_row e w'.rows conn.auth now f.get_ok in
    ground (arith, meet_previous-is_some w'.here conn.auth o)
