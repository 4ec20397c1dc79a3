-- ===== src/Connections.antt =====
-- core/service/websocket/connection-manager/connection_mamanger.go. Each method runs under the
-- mutex, so it is one step. Go walks a map in any order; the tables fix one.
pub mod Lookup
pub mod WellFormed
pub mod Listing
use go_pkg.Common.{Bytes, Bool, Option, none, some, List, [], ◌∷◌, ◌++◌, if◌then◌else◌}
use go_pkg.Common.Table.{Table, get, put, del, values, no_entries}
use go_pkg.Domain.{Auth, is_anonymous, Conn}

pub record ConnectionMap : Type 0 where
  pub user_conn : Table (Table Conn)
  pub anonymous_conn : Table Conn

abbrev pub new : ConnectionMap
new = record { user_conn = []; anonymous_conn = [] }

-- The inner table of a user, empty where there is none.
abbrev pub or_empty : Option (Table Conn) → Table Conn
or_empty none = []
or_empty (some clients) = clients

abbrev pub clients_of : ConnectionMap → Bytes → Table Conn
clients_of m user_id = or_empty (get user_id m.user_conn)

unfoldable pub add_connection : ConnectionMap → Conn → ConnectionMap
add_connection m connection =
    let a = connection.auth in
    if is_anonymous a
    then record m { anonymous_conn = put a.instance_id connection m.anonymous_conn }
    else record m {
      user_conn = put a.user_id (put a.instance_id connection (clients_of m a.user_id)) m.user_conn;
    }

-- What is left of a user's inner table; an empty one leaves the outer map.
unfoldable pub keep_clients : Bytes → Table Conn → Table (Table Conn) → Table (Table Conn)
keep_clients user_id clients outer =
    if no_entries clients then del user_id outer else put user_id clients outer

unfoldable pub remove_connection : ConnectionMap → Auth → ConnectionMap
remove_connection m a =
    if is_anonymous a
    then record m { anonymous_conn = del a.instance_id m.anonymous_conn }
    else elim (get a.user_id m.user_conn) [
      | none ↦ m
      | some clients ↦ record m {
        user_conn = keep_clients a.user_id (del a.instance_id clients) m.user_conn;
      }
    ]

unfoldable pub get_connection : ConnectionMap → Auth → Option Conn
get_connection m a =
    if is_anonymous a
    then get a.instance_id m.anonymous_conn
    else elim (get a.user_id m.user_conn) [ none ↦ none | some clients ↦ get a.instance_id clients ]

unfoldable pub get_all_user_conn : ConnectionMap → Bytes → List Conn
get_all_user_conn m user_id = elim (get user_id m.user_conn) [
  | none ↦ []
  | some clients ↦ values clients
]

unfoldable pub get_all_anonymous_conn : ConnectionMap → List Conn
get_all_anonymous_conn m = values m.anonymous_conn

-- The nested loop over users and their connections.
unfoldable pub all_clients : Table (Table Conn) → List Conn
all_clients [] = []
all_clients ((user_id, clients) ∷ outer) = values clients ++ all_clients outer

unfoldable pub get_all_authenticated_conn : ConnectionMap → List Conn
get_all_authenticated_conn m = all_clients m.user_conn

unfoldable pub get_all_connections : ConnectionMap → List Conn
get_all_connections m = all_clients m.user_conn ++ values m.anonymous_conn
