-- ===== src/Lifecycle/Moves.antt =====
-- Sessions that lose their row although they are connected: a timer of an older registration is not
-- cancelled where the new connection does not find the row as it was left.
use go_pkg.Common.{
  ℕ, ◌+◌, true, false, ◌≡◌, refl, Bytes, is_empty, str_eq_refl, none, some, List, [], ◌∷◌, ◌++◌,
  map, arith, ◌∙◌,
}
use go_pkg.Common.Nested.{get2, get2-put2}
use go_pkg.Domain.{
  Auth, is_anonymous, same_session, Conn, connected, temp_disconnected, user_websocket_auth,
}
use go_pkg.Connections.{get_connection}
use go_pkg.MsgHub
use go_pkg.MsgHub.{Timer}
use go_pkg.Routing.{find_session_conn}
use go_pkg.Delivery
use go_pkg.ActiveConns.{Rows, Row, get_instance_connection, is_fresh}
use go_pkg.ActiveConns.Rows.{get2-remove_connection, get2-update_status}
use go_pkg.Lifecycle.{
  Env, no_faults, Container, World, Effect, signals_disconnect, delivers, counts_accepted,
  previous_row, meet_previous, meet_row, disconnect_session, on_close, on_expired, forget, leave,
  on_new, accepted,
}
use go_pkg.Lifecycle.Admission.{has_empty_part}
use go_pkg.Lifecycle.Admitted.{IsAdmitted-when_met}

abbrev pub timer_of : Auth → ℕ → Timer
timer_of a g = record { user_id = a.user_id; instance_id = a.instance_id; gen = g }

pub same_session_refl : (a : Auth) → same_session a a ≡ true
unfolding same_session
same_session_refl a = ground (arith, str_eq_refl a.user_id, str_eq_refl a.instance_id)

pub row_expired :
    (w : World) (a : Auth) (g : ℕ)
    → get2 a.user_id a.instance_id (on_expired w (timer_of a g) true).rows ≡ none
unfolding on_expired
row_expired w a g =
    get2-remove_connection w.rows a.user_id a.instance_id a.user_id a.instance_id
    ∙ rw (str_eq_refl a.user_id, str_eq_refl a.instance_id) refl

-- A session that was left at this container and comes back to it once its row has become stale, but
-- before the timer of its registration fires: it is admitted, the registration stands, and when
-- its timer fires the row of the live session is deleted.
pub late_return_loses_row :
    (e : Env) (w : World) (conn : Conn) (now : ℕ) (pending : List Bytes) (row : Row) (g : ℕ)
    → get_connection w.here.conns conn.auth ≡ none
    → get2 conn.auth.user_id conn.auth.instance_id w.rows ≡ some row
    → is_fresh e.heartbeat_cutoff now row ≡ false
    → get2 conn.auth.user_id conn.auth.instance_id w.here.hub.registry ≡ some g
    → (after : World) × (effects : List Effect) × (on_new e w conn now no_faults pending
        ≡ accepted after effects)
      × (get2 conn.auth.user_id conn.auth.instance_id after.here.hub.registry ≡ some g)
      × (let later = on_expired after (timer_of conn.auth g) true in
          (get_connection later.here.conns conn.auth ≡ some conn)
          × (get2 conn.auth.user_id conn.auth.instance_id later.rows ≡ none))
unfolding get_instance_connection meet_previous on_expired
late_return_loses_row e w conn now pending row g nothing left stale registered =
    let (after, accepts, admitted, same_hub) =
      IsAdmitted-when_met e w conn now pending [] nothing (ground (arith, left, stale)) in
    (
      after,
      map (delivers conn) pending ++ counts_accepted ∷ [],
      accepts,
      rw same_hub registered,
      (
        admitted.found_here conn.auth ∙ rw (same_session_refl conn.auth) refl,
        row_expired after conn.auth g,
      ),
    )

-- What the container that held the session does once it is told to disconnect it.
pub closed_after_move :
    (w : World) (a : Auth) (now : ℕ) (row : Row)
    → is_anonymous a ≡ false
    → w.here.shutting_down ≡ false
    → get2 a.user_id a.instance_id w.rows ≡ some row
    → let left = (on_close w a now no_faults).0 in
      (get2 a.user_id a.instance_id left.rows ≡ some (record row { status = temp_disconnected }))
      × (get2 a.user_id a.instance_id left.here.hub.registry ≡ some (w.here.hub.gen_seq + 1))
unfolding on_close forget leave MsgHub.register
closed_after_move w a now row named up e = ground (
  arith,
  get2-update_status w.rows a.user_id a.instance_id a.user_id a.instance_id temp_disconnected,
  get2-put2 a.user_id a.instance_id a.user_id a.instance_id (w.here.hub.gen_seq + 1)
      w.here.hub.registry,
  str_eq_refl a.user_id,
  str_eq_refl a.instance_id,
)

-- A named session that is live at one container connects at another, where nothing fails: the new
-- one tells the old one to disconnect it. When that does, it marks the row, which is the new container's by now, as
-- temporarily disconnected and registers the session; and when the timer of that registration
-- fires, the row is deleted, while the new container still holds the connection.
pub moved_session_loses_row :
    (e : Env) (old new : Container) (rows : Rows) (before conn : Conn) (now later : ℕ) (row : Row)
    → has_empty_part conn.auth ≡ false
    → get_connection old.conns conn.auth ≡ some before
    → old.shutting_down ≡ false
    → get_connection new.conns conn.auth ≡ none
    → get2 conn.auth.user_id conn.auth.instance_id rows ≡ some row
    → row.status ≡ connected
    → row.holder_id ≡ old.id
    → is_empty old.id ≡ false
    → is_fresh e.heartbeat_cutoff now row ≡ true
    → (after : World) × (on_new e (record { here = new; rows = rows }) conn now no_faults []
        ≡ accepted after (signals_disconnect old.id ∷ counts_accepted ∷ []))
      × (Delivery.disconnect_session old.conns conn.auth.user_id conn.auth.instance_id
          ≡ some (Delivery.closes before ∷ []))
      × (let left =
            (on_close (record { here = old; rows = after.rows }) conn.auth later no_faults).0 in
          let expired = on_expired left (timer_of conn.auth (old.hub.gen_seq + 1)) true in
          (get2 conn.auth.user_id conn.auth.instance_id left.here.hub.registry
            ≡ some (old.hub.gen_seq + 1))
          × (get2 conn.auth.user_id conn.auth.instance_id expired.rows ≡ none)
          × (get_connection after.here.conns conn.auth ≡ some conn))
unfolding get_instance_connection meet_previous meet_row disconnect_session find_session_conn
    user_websocket_auth Delivery.disconnect_session Delivery.close_conn is_anonymous
moved_session_loses_row e old new rows before conn now later row parts live up nothing at st held
      named_id fresh =
    let w : World = record { here = new; rows = rows } in
    let met : meet_previous new conn.auth (previous_row e rows conn.auth now true)
        ≡ some (new, signals_disconnect old.id ∷ []) =
      ground (arith, at, fresh) in
    let (after, accepts, admitted, same_hub) =
      IsAdmitted-when_met e w conn now [] (signals_disconnect old.id ∷ []) nothing met in
    let left =
      closed_after_move (record { here = old; rows = after.rows }) conn.auth later admitted.row
        (ground arith) up admitted.row_written in
    (
      after,
      accepts,
      ground arith,
      (
        left.1,
        row_expired
            (on_close (record { here = old; rows = after.rows }) conn.auth later no_faults).0
            conn.auth (old.hub.gen_seq + 1),
        admitted.found_here conn.auth ∙ rw (same_session_refl conn.auth) refl,
      ),
    )
