-- ===== src/Services.antt =====
-- The services that send without an ack, disconnect and look up: core/service/websocket/mediator/service/1.*.go
-- and 2.send_to_all.go, over the searches of Routing, the handlers of Delivery and the table of active
-- connections. A publication that fails is logged and no error, but a creator of messages panics on a nil
-- payload, `none`. New IDs and the results of sends are arguments.
pub mod Reach
use go_pkg.Common.{
  ℕ, ◌+◌, Bool, true, false, ◌||◌, Bytes, Option, none, some, List, [], ◌∷◌, ◌++◌, map,
  if◌then◌else◌, ltb,
}
use go_pkg.Common.Table.{Table}
use go_pkg.Domain.{Auth, Conn, CoreType, Status}
use go_pkg.Connections.{ConnectionMap, get_connection, get_all_connections}
use go_pkg.MsgHub.{Hub}
use go_pkg.Routing.{
  ActiveConnection, QueryResult, Routes, RepoError, record_not_found, other_error, InstanceResult,
  found, failing, find_user_conn, find_multi_user_conn, find_session_conn, SessionResult, acts,
  failed, panicked, locally, callback_notfound, transferring, target_container, holds, is_nil,
}
use go_pkg.Broadcast.{Params, is_valid_input, content}
use go_pkg.Delivery
use go_pkg.Delivery.{Payload, wrap_bytes}
use go_pkg.ActiveConns.{
  Rows, Row, get_instance_connection, get_active_connections, count_active_connections,
  count_active_connections_batch,
}

-- The answers of the table to the searches; `ok` tells whether the query succeeds.
unfoldable pub to_active : Bytes → Table Row → List ActiveConnection
to_active user_id [] = []
to_active user_id ((instance_id, row) ∷ rows) =
    record { user_id = user_id; instance_id = instance_id; holder_id = row.holder_id }
    ∷ to_active user_id rows

unfoldable pub instance_of : Rows → ℕ → ℕ → Bytes → Bytes → Bool → InstanceResult
instance_of rows cutoff now user_id instance_id ok =
    if ok
    then elim (get_instance_connection rows cutoff now user_id instance_id) [
      | none ↦ failing record_not_found
      | some row ↦
          found (record { user_id = user_id; instance_id = instance_id; holder_id = row.holder_id })
    ]
    else failing other_error

abbrev pub query_of : List ActiveConnection → Bool → QueryResult
query_of rows ok =
    if ok
    then record { rows = rows; error = none }
    else record { rows = []; error = some other_error }

unfoldable pub user_rows : Rows → ℕ → ℕ → Bytes → Bool → QueryResult
unfolding to_active
user_rows rows cutoff now user_id ok =
    query_of (to_active user_id (get_active_connections rows cutoff now user_id)) ok

-- `GetActiveConnectionsByUserIDs`: the rows of all users, each row once however often its user is named.
unfoldable pub rows_of_users : Rows → ℕ → ℕ → List Bytes → List ActiveConnection
unfolding to_active
rows_of_users rows cutoff now [] = []
rows_of_users rows cutoff now (u ∷ us) =
    let rest = rows_of_users rows cutoff now us in
    if holds u us then rest else to_active u (get_active_connections rows cutoff now u) ++ rest

pub data Outcome : Type 0 where
  done : List Delivery.Effect → List Bytes → Outcome
  saved : Bytes → Bytes → Payload → Outcome
  repo_failed : Outcome
  -- With what was done before.
  service_panicked : List Delivery.Effect → Outcome

abbrev pub from_local : Option (List Delivery.Effect) → Outcome
from_local none = service_panicked []
from_local (some effects) = done effects []

-- `message` is what the creator is given for the other containers.
unfoldable pub act_on_session :
    SessionResult → Option (List Delivery.Effect) → Outcome → Params → Outcome
unfolding is_valid_input
act_on_session panicked local when_transferring message = service_panicked []
act_on_session failed local when_transferring message = repo_failed
act_on_session (acts locally) local when_transferring message = from_local local
act_on_session (acts callback_notfound) local when_transferring message = done [] []
act_on_session (acts transferring) local when_transferring message = when_transferring
act_on_session (acts (target_container holder)) local when_transferring message =
    if is_valid_input message then done [] (holder ∷ []) else service_panicked []

-- `SendToSession`: a session that is being transferred has its message saved; `saved` is that the
-- repository is asked to.
unfoldable pub send_to_session :
    ConnectionMap
    → Hub
    → (Conn → Bool)
    → InstanceResult
    → Bytes
    → Bytes
    → Bytes
    → Bytes
    → Option Bytes
    → Outcome
unfolding act_on_session
send_to_session m hub send_ok row id user_id instance_id msg_type payload =
    act_on_session (find_session_conn m user_id instance_id true row)
      (Delivery.send_to_session m hub send_ok id user_id instance_id msg_type (content payload))
      (saved user_id instance_id (wrap_bytes id [] msg_type (content payload)))
      (Params.send_to_session user_id instance_id msg_type payload)

unfoldable pub disconnect_session : ConnectionMap → InstanceResult → Bytes → Bytes → Outcome
unfolding act_on_session
disconnect_session m row user_id instance_id =
    act_on_session (find_session_conn m user_id instance_id false row)
      (Delivery.disconnect_session m user_id instance_id) (done [] [])
      (Params.disconnect_session user_id instance_id)

-- The common end of the searches for users: the local action where it is due, then the others' containers,
-- for which no message is made where there are none.
abbrev pub act_on_routes : Option Routes → List Delivery.Effect → Params → Outcome
act_on_routes none local message = repo_failed
act_on_routes (some routes) local message =
    let here = if routes.local_action then local else [] in
    if is_nil routes.containers || is_valid_input message
    then done here routes.containers
    else service_panicked here

unfoldable pub send_to_user :
    ConnectionMap
    → Hub
    → (Conn → Bool)
    → Bytes
    → QueryResult
    → Bytes
    → Bytes
    → Bytes
    → Option Bytes
    → Outcome
send_to_user m hub send_ok self rows id user_id msg_type payload =
    act_on_routes (find_user_conn m self user_id rows)
      (Delivery.send_to_user m hub send_ok id user_id msg_type (content payload))
      (Params.send_to_user user_id msg_type payload)

unfoldable pub send_to_users :
    ConnectionMap
    → (Conn → Bool)
    → Bytes
    → QueryResult
    → Bytes
    → List Bytes
    → Bytes
    → Option Bytes
    → Outcome
send_to_users m send_ok self rows id user_ids msg_type payload =
    act_on_routes (find_multi_user_conn m self user_ids rows)
      (Delivery.send_to_users m send_ok id user_ids msg_type (content payload))
      (Params.send_to_users user_ids msg_type payload)

unfoldable pub disconnect_user : ConnectionMap → Bytes → QueryResult → Bytes → Outcome
disconnect_user m self rows user_id =
    act_on_routes (find_user_conn m self user_id rows) (Delivery.disconnect_user m user_id)
      (Params.disconnect_user user_id)

-- `none` is the repository's error.
unfoldable pub check_online : Rows → ℕ → ℕ → Bytes → Bool → Option Bool
check_online rows cutoff now user_id ok =
    if ok then some (ltb 0 (count_active_connections rows cutoff now user_id)) else none

unfoldable pub positive_counts : Table ℕ → Table Bool
positive_counts [] = []
positive_counts ((user_id, count) ∷ counts) = (user_id, ltb 0 count) ∷ positive_counts counts

unfoldable pub check_online_multiple : Rows → ℕ → ℕ → List Bytes → Bool → Option (Table Bool)
unfolding positive_counts
check_online_multiple rows cutoff now user_ids ok =
    if ok
    then some (positive_counts (count_active_connections_batch rows cutoff now user_ids))
    else none

pub record SessionInfo : Type 0 where
  pub user_id : Bytes
  pub instance_id : Bytes
  pub holder_id : Bytes
  pub connection_type : CoreType
  pub status : Status
  pub connected_at : ℕ

unfoldable pub to_session_info : Bytes → Table Row → List SessionInfo
to_session_info user_id [] = []
to_session_info user_id ((instance_id, row) ∷ rows) =
    record {
      user_id = user_id;
      instance_id = instance_id;
      holder_id = row.holder_id;
      connection_type = row.connection_type;
      status = row.status;
      connected_at = row.connected_at;
    }
    ∷ to_session_info user_id rows

unfoldable pub get_user_sessions : Rows → ℕ → ℕ → Bytes → Bool → Option (List SessionInfo)
unfolding to_session_info
get_user_sessions rows cutoff now user_id ok =
    if ok
    then some (to_session_info user_id (get_active_connections rows cutoff now user_id))
    else none

-- `PingAllLocalConnections`: the connections that are pinged.
unfoldable pub ping_all_local_connections : ConnectionMap → List Conn
ping_all_local_connections m = get_all_connections m
