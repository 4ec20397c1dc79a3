-- ===== src/Connections/Lookup.antt =====
-- The nested maps as one map from sessions to connections.
use go_pkg.Common.{Bytes, none, some, if◌then◌else◌, ◌≡◌, str_eq, str_eq_iff, arith}
use go_pkg.Common.Table.{
  Table, get, put, del, no_entries, get-put, get-del, get-no_entries, get-nil,
}
use go_pkg.Domain.{Auth, is_anonymous, same_session, Conn}
use go_pkg.Connections.{
  ConnectionMap, add_connection, keep_clients, remove_connection, get_connection, clients_of,
}

-- After `AddConnection` its session finds the new connection, and every other session what it
-- found before.
pub get_connection-add_connection :
    (m : ConnectionMap) (c : Conn) (a : Auth)
    → get_connection (add_connection m c) a
      ≡ (if same_session c.auth a then some c else get_connection m a)
unfolding get_connection add_connection same_session is_anonymous
get_connection-add_connection m c a = ground (
  arith,
  get-put a.instance_id c.auth.instance_id c m.anonymous_conn,
  get-put a.user_id c.auth.user_id (put c.auth.instance_id c (clients_of m c.auth.user_id))
      m.user_conn,
  get-put a.instance_id c.auth.instance_id c (clients_of m c.auth.user_id),
  get-nil {V = Conn} a.instance_id,
  str_eq_iff c.auth.user_id a.user_id,
  str_eq_iff c.auth.instance_id a.instance_id,
)

pub get-keep_clients :
    (k user_id : Bytes) (clients : Table Conn) (outer : Table (Table Conn))
    → get k (keep_clients user_id clients outer) ≡ (
        if str_eq user_id k
        then (if no_entries clients then none else some clients)
        else get k outer)
unfolding keep_clients
get-keep_clients k user_id clients outer =
    ground (arith, get-put k user_id clients outer, get-del k user_id outer)

-- After `RemoveConnection` the session finds nothing, and every other session what it found
-- before, be it of the same user or not.
pub get_connection-remove_connection :
    (m : ConnectionMap) (a b : Auth)
    → get_connection (remove_connection m a) b
      ≡ (if same_session a b then none else get_connection m b)
unfolding get_connection remove_connection same_session is_anonymous
get_connection-remove_connection m a b =
    let clients = del a.instance_id (clients_of m a.user_id) in
    ground (
      arith,
      get-del b.instance_id a.instance_id m.anonymous_conn,
      get-keep_clients b.user_id a.user_id clients m.user_conn,
      get-del b.instance_id a.instance_id (clients_of m a.user_id),
      get-no_entries b.instance_id clients,
      str_eq_iff a.user_id b.user_id,
      str_eq_iff a.instance_id b.instance_id,
    )
