-- ===== src/Lifecycle.antt =====
-- What happens to a session when a connection comes and goes: the callbacks that `registerCallback`
-- of core/service/websocket/mediator/delivery/0.new.go registers, with conn_metrics.go beside it, over the
-- connection map, the limiters, the message hub and the table of active connections. A connection in the map is open, and its
-- first `Close` runs the callback of closing. A statement of the database may fail: `Faults` tells
-- which do. What `Consume` returns is an argument, the empty list where it fails.
pub mod Admission
pub mod Admitted
pub mod Sessions
pub mod Moves
use go_pkg.Common.{
  ℕ, ◌+◌, ◌-◌, Bool, true, false, ◌&&◌, Bytes, bytes, is_empty, str_eq, Option, none, some, List,
  [], ◌∷◌, ◌++◌, map, if◌then◌else◌,
}
use go_pkg.Common.Table.{Table, get, put, del}
use go_pkg.Domain.{Auth, is_anonymous, Conn, Status, connected, temp_disconnected, transferring}
use go_pkg.Connections
use go_pkg.Connections.{ConnectionMap, get_connection}
use go_pkg.RateLimit
use go_pkg.RateLimit.{RateLimiter}
use go_pkg.MsgHub
use go_pkg.MsgHub.{Hub, Timer}
use go_pkg.Routing.{
  find_session_conn, InstanceResult, found, failing, record_not_found, other_error, SessionResult,
  acts, failed, panicked, locally, callback_notfound, target_container,
}
use go_pkg.Routing
use go_pkg.Delivery
use go_pkg.ActiveConns.{Rows, Row, get_instance_connection, update_status, add_connection}
use go_pkg.ActiveConns

pub record Env : Type 0 where
  pub limits : RateLimit.Env
  pub heartbeat_cutoff : ℕ

pub record Faults : Type 0 where
  pub get_ok : Bool
  pub add_ok : Bool
  pub update_ok : Bool
  pub remove_ok : Bool

abbrev pub no_faults : Faults
no_faults = record { get_ok = true; add_ok = true; update_ok = true; remove_ok = true }

pub record Container : Type 0 where
  pub id : Bytes
  pub conns : ConnectionMap
  pub limiter : RateLimiter
  pub hub : Hub
  pub open_at : Table ℕ
  pub shutting_down : Bool

abbrev pub started : Bytes → Container
started id = record {
  id = id;
  conns = Connections.new;
  limiter = RateLimit.empty;
  hub = MsgHub.new;
  open_at = [];
  shutting_down = false;
}

-- One container and the table that all share.
pub record World : Type 0 where
  pub here : Container
  pub rows : Rows

pub data Effect : Type 0 where
  signals_disconnect : Bytes → Effect
  signals_resume : Bytes → Effect
  closes : Conn → Effect
  delivers : Conn → Bytes → Effect
  records_duration : ℕ → Effect
  counts_accepted : Effect

-- `authKey`.
unfoldable pub auth_key : Auth → Bytes
auth_key a = a.user_id ++ (bytes ":" ++ a.instance_id)

-- `connTracker.open`.
unfoldable pub tracker_open : Table ℕ → Auth → ℕ → Table ℕ
unfolding auth_key
tracker_open t a now = put (auth_key a) now t

-- `connTracker.close`: the duration, where an opening was recorded.
unfoldable pub tracker_close : Table ℕ → Auth → ℕ → Option ℕ × Table ℕ
unfolding auth_key
tracker_close t a now = elim (get (auth_key a) t) [
  | none ↦ (none, t)
  | some start ↦ (some (now - start), del (auth_key a) t)
]

abbrev pub duration_metric : Option ℕ → List Effect
duration_metric none = []
duration_metric (some d) = records_duration d ∷ []

-- The first lines of the closing callback, before the database is asked.
unfoldable pub forget : Container → Auth → ℕ → Container
forget c a now = record c {
  conns = Connections.remove_connection c.conns a;
  limiter = RateLimit.remove c.limiter a;
  open_at = (tracker_close c.open_at a now).1;
}

unfoldable pub remove_row : Rows → Auth → Bool → Rows
remove_row rows a ok =
    if ok then ActiveConns.remove_connection rows a.user_id a.instance_id else rows

-- A named session becomes temporarily disconnected; its row goes where that cannot be written.
unfoldable pub leave : World → Auth → Faults → World
unfolding remove_row
leave w a f =
    if f.update_ok
    then record {
      rows = update_status w.rows a.user_id a.instance_id temp_disconnected;
      here = record w.here { hub = MsgHub.register w.here.hub a.user_id a.instance_id };
    }
    else record w { rows = remove_row w.rows a f.remove_ok }

-- The callback of `onCloseStuff.RegisterAll`.
unfoldable pub on_close : World → Auth → ℕ → Faults → World × List Effect
unfolding forget remove_row leave
on_close w a now f =
    let w' : World = record w { here = forget w.here a now } in
    let metric = duration_metric (tracker_close w.here.open_at a now).0 in
    if is_anonymous a
    then (record w' { rows = remove_row w.rows a f.remove_ok }, metric)
    else if w.here.shutting_down
    then (w', metric)
    else (leave w' a f, metric)

-- `onExpired`, which the timer of a registration runs: the row goes. Pending messages are deleted
-- with it, in another table.
unfoldable pub on_expired : World → Timer → Bool → World
on_expired w t ok = record {
  here = record w.here { hub = MsgHub.expire w.here.hub t };
  rows = if ok then ActiveConns.remove_connection w.rows t.user_id t.instance_id else w.rows;
}

-- `ResumeSession` of mediator/service/1.resume_session.go.
unfoldable pub resume_session : Container → Bytes → Auth → Container × List Effect
resume_session c target a =
    if is_empty target
    then (c, [])
    else if str_eq target c.id
    then (record c { hub = Delivery.resume_session c.hub a.user_id a.instance_id }, [])
    else (c, signals_resume target ∷ [])

abbrev pub row_result : Auth → Option Row → InstanceResult
row_result a none = failing record_not_found
row_result a (some row) =
    found (record { user_id = a.user_id; instance_id = a.instance_id; holder_id = row.holder_id })

abbrev pub closes_found : Option Conn → List Effect
closes_found none = []
closes_found (some conn) = closes conn ∷ []

-- `DisconnectSession` of mediator/service/1.disconnect_session.go: `none` is its panic.
unfoldable pub disconnect_session : Container → Auth → InstanceResult → Option (List Effect)
disconnect_session c a row = elim (find_session_conn c.conns a.user_id a.instance_id false row) [
  | panicked ↦ none
  | failed ↦ some []
  | acts locally ↦ some (closes_found (get_connection c.conns a))
  | acts callback_notfound ↦ some []
  | acts Routing.transferring ↦ some []
  | acts (target_container holder) ↦ some (signals_disconnect holder ∷ [])
]

abbrev pub with_container : Container → Option (List Effect) → Option (Container × List Effect)
with_container c none = none
with_container c (some effects) = some (c, effects)

-- The `switch` over the status of the row that was found.
unfoldable pub meet_row : Container → Auth → Row → Option (Container × List Effect)
unfolding disconnect_session resume_session
meet_row c a row = elim row.status [
  | connected ↦ with_container c (disconnect_session c a (row_result a (some row)))
  | temp_disconnected ↦ some (resume_session c row.holder_id a)
  | transferring ↦ some (c, [])
]

unfoldable pub meet_previous : Container → Auth → Option Row → Option (Container × List Effect)
unfolding meet_row
meet_previous c a none = some (c, [])
meet_previous c a (some row) = meet_row c a row

-- The connection is registered and handed what was pending.
unfoldable pub admit : Env → World → Conn → ℕ → World
admit e w conn now = record w {
  here = record w.here {
    conns = Connections.add_connection w.here.conns conn;
    limiter = (RateLimit.new e.limits w.here.limiter conn.auth).1;
    open_at = tracker_open w.here.open_at conn.auth now;
  };
}

pub data NewOutcome : Type 0 where
  accepted : World → List Effect → NewOutcome
  refused : World → List Effect → NewOutcome
  panics : World → NewOutcome

unfoldable pub close_existing : World → Auth → ℕ → Faults → World × List Effect
close_existing w a now f = elim (get_connection w.here.conns a) [
  | none ↦ (w, [])
  | some existing ↦ on_close w a now f
]

-- `GetInstanceConnection`, and nothing where it fails.
abbrev pub previous_row : Env → Rows → Auth → ℕ → Bool → Option Row
previous_row e rows a now ok =
    if ok then get_instance_connection rows e.heartbeat_cutoff now a.user_id a.instance_id else none

unfoldable pub claim : Env → World → Conn → ℕ → Bool → List Bytes → List Effect → NewOutcome
unfolding admit
claim e w conn now add_ok pending before =
    let a = conn.auth in
    if add_ok
    then accepted
        (admit e
          (record w {
            rows = add_connection w.rows w.here.id a.user_id a.instance_id conn.core_type now;
          })
          conn now)
        (before ++ (map (delivers conn) pending ++ counts_accepted ∷ []))
    else refused w before

-- What follows once an existing connection is closed.
unfoldable pub meet_and_claim :
    Env → World → List Effect → Conn → ℕ → Faults → List Bytes → NewOutcome
unfolding meet_previous claim
meet_and_claim e w closing conn now f pending =
    elim (meet_previous w.here conn.auth (previous_row e w.rows conn.auth now f.get_ok)) [
      | none ↦ panics w
      | some (c, signals) ↦
          claim e (record w { here = c }) conn now f.add_ok pending (closing ++ signals)
    ]

-- The callback "NewConnection".
unfoldable pub on_new : Env → World → Conn → ℕ → Faults → List Bytes → NewOutcome
unfolding close_existing meet_and_claim
on_new e w conn now f pending =
    let closed = close_existing w conn.auth now f in
    meet_and_claim e closed.0 closed.1 conn now f pending
