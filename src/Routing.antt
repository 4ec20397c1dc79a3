-- ===== src/Routing.antt =====
-- Where a message goes: core/service/websocket/mediator/service/99.helper.go. The repository of
-- active connections is outside: what it answers is an argument. The actions that a search calls
-- are listed in its result.
pub mod Containers
pub mod Sending
use go_pkg.Common.{
  Bool, true, false, ◌||◌, ◌&&◌, not, Bytes, is_empty, str_eq, Option, none, some, List, [], ◌∷◌,
  ◌++◌, if◌then◌else◌,
}
use go_pkg.Domain.{Auth, Conn, user_websocket_auth}
use go_pkg.Connections.{ConnectionMap, get_connection, get_all_user_conn}

pub data RepoError : Type 0 where
  record_not_found other_error : RepoError

pub record ActiveConnection : Type 0 where
  pub user_id : Bytes
  pub instance_id : Bytes
  pub holder_id : Bytes

-- The rows and the error that a query returns.
pub record QueryResult : Type 0 where
  pub rows : List ActiveConnection
  pub error : Option RepoError

-- `aErr != nil && !errors.Is(aErr, aerror.RecordNotFound)`.
abbrev pub is_failure : Option RepoError → Bool
is_failure none = false
is_failure (some record_not_found) = false
is_failure (some other_error) = true

-- Whether the local action is called, and the containers of the remote one, which is called where
-- there are any.
pub record Routes : Type 0 where
  pub local_action : Bool
  pub containers : List Bytes

unfoldable pub holds : Bytes → List Bytes → Bool
holds x [] = false
holds x (y ∷ ys) = str_eq y x || holds x ys

abbrev pub is_nil {ℓ} : {A : Type ℓ} → List A → Bool
is_nil [] = true
is_nil (c ∷ cs) = false

unfoldable pub user_loop : Bytes → List ActiveConnection → List Bytes → Routes
user_loop local [] seen = record { local_action = false; containers = [] }
user_loop local (conn ∷ conns) seen =
    let skipped = user_loop local conns seen in
    let taken = user_loop local conns (conn.holder_id ∷ seen) in
    if str_eq conn.holder_id local
    then record skipped { local_action = true }
    else if is_empty conn.holder_id
    then skipped
    else if holds conn.holder_id seen
    then skipped
    else record taken { containers = conn.holder_id ∷ taken.containers }

-- `findUserConn.findThenAction`. `none` is the repository's error.
unfoldable pub find_user_conn : ConnectionMap → Bytes → Bytes → QueryResult → Option Routes
find_user_conn m local user_id act_conns =
    if is_failure act_conns.error
    then none
    else (let routes = user_loop local act_conns.rows [] in
        some (record routes {
          local_action = not (is_nil (get_all_user_conn m user_id)) || routes.local_action;
        }))

pub data SessionAction : Type 0 where
  locally callback_notfound transferring : SessionAction
  target_container : Bytes → SessionAction

pub data SessionResult : Type 0 where
  acts : SessionAction → SessionResult
  failed panicked : SessionResult

-- `GetInstanceConnection`: a row or an error.
pub data InstanceResult : Type 0 where
  found : ActiveConnection → InstanceResult
  failing : RepoError → InstanceResult

unfoldable pub find_in_repo : Bool → InstanceResult → SessionResult
find_in_repo has_transferring (failing record_not_found) = acts callback_notfound
find_in_repo has_transferring (failing other_error) = failed
find_in_repo has_transferring (found conn) =
    if is_empty conn.holder_id
    then (if has_transferring then acts transferring else acts callback_notfound)
    else acts (target_container conn.holder_id)

-- `findSessionConn.findThenAction`; `has_transferring` tells whether `transferringAction` is set.
-- The factory of the session's auth panics on an empty part.
unfoldable pub find_session_conn :
    ConnectionMap → Bytes → Bytes → Bool → InstanceResult → SessionResult
unfolding find_in_repo
find_session_conn m user_id instance_id has_transferring row =
    elim (user_websocket_auth user_id instance_id) [
      | none ↦ panicked
      | some auth ↦ elim (get_connection m auth) [
        | some conn ↦ acts locally
        | none ↦ find_in_repo has_transferring row
      ]
    ]

-- The loop over the users, which stops at the first with a live connection.
unfoldable pub any_live : ConnectionMap → List Bytes → Bool
any_live m [] = false
any_live m (user_id ∷ user_ids) = not (is_nil (get_all_user_conn m user_id)) || any_live m user_ids

unfoldable pub multi_loop : Bytes → List ActiveConnection → List Bytes → List Bytes
multi_loop local [] seen = []
multi_loop local (conn ∷ conns) seen =
    let skipped = multi_loop local conns seen in
    let rest = multi_loop local conns (conn.holder_id ∷ seen) in
    if holds conn.holder_id seen
    then skipped
    else if not (is_empty conn.holder_id) && not (str_eq conn.holder_id local)
    then conn.holder_id ∷ rest
    else rest

-- `findMultiUserConn.findThenAction`.
unfoldable pub find_multi_user_conn :
    ConnectionMap → Bytes → List Bytes → QueryResult → Option Routes
find_multi_user_conn m local user_ids act_conns =
    if is_failure act_conns.error
    then none
    else some (record {
      local_action = any_live m user_ids;
      containers = multi_loop local act_conns.rows [];
    })
