-- ===== src/Routing/Containers.antt =====
-- The containers that are asked, against the holders of the sessions.
use go_pkg.Common.{
  ◌≡◌, refl, Bool, true, false, ◌||◌, ◌&&◌, not, Bytes, is_empty, str_eq, str_eq_iff, str_eq_refl,
  some, List, [], ◌∷◌, arith,
}
use go_pkg.Connections.{ConnectionMap, get_all_user_conn}
use go_pkg.Routing.{
  ActiveConnection, QueryResult, is_failure, Routes, holds, is_nil, user_loop, find_user_conn,
  any_live, multi_loop, find_multi_user_conn,
}

-- Whether a session of the rows is held by a container.
unfoldable pub held_by : Bytes → List ActiveConnection → Bool
held_by c [] = false
held_by c (conn ∷ conns) = str_eq conn.holder_id c || held_by c conns

-- Whether a container is one to ask: not this one, and not the empty name.
abbrev pub is_remote : Bytes → Bytes → Bool
is_remote local c = not (is_empty c) && not (str_eq local c)

-- A list without repetition.
unfoldable pub is_distinct : List Bytes → Bool
is_distinct [] = true
is_distinct (c ∷ cs) = not (holds c cs) && is_distinct cs

user_loop-holds :
    (local c : Bytes) (conns : List ActiveConnection) (seen : List Bytes)
    → holds c ((user_loop local conns seen).containers)
      ≡ (is_remote local c && not (holds c seen) && held_by c conns)
unfolding user_loop holds held_by
user_loop-holds local c [] seen = ground arith
user_loop-holds local c (conn ∷ conns) seen = ground (
  arith,
  user_loop-holds local c conns seen,
  user_loop-holds local c conns (conn.holder_id ∷ seen),
  str_eq_iff conn.holder_id c,
  str_eq_iff conn.holder_id local,
  str_eq_iff local c,
)

user_loop-is_distinct :
    (local : Bytes) (conns : List ActiveConnection) (seen : List Bytes)
    → is_distinct ((user_loop local conns seen).containers) ≡ true
unfolding user_loop is_distinct holds
user_loop-is_distinct local [] seen = refl
user_loop-is_distinct local (conn ∷ conns) seen = ground (
  arith,
  user_loop-is_distinct local conns seen,
  user_loop-is_distinct local conns (conn.holder_id ∷ seen),
  user_loop-holds local conn.holder_id conns (conn.holder_id ∷ seen),
  str_eq_refl conn.holder_id,
)

user_loop-local :
    (local : Bytes) (conns : List ActiveConnection) (seen : List Bytes)
    → (user_loop local conns seen).local_action ≡ held_by local conns
unfolding user_loop held_by
user_loop-local local [] seen = refl
user_loop-local local (conn ∷ conns) seen =
    ground
      (arith, user_loop-local local conns seen, user_loop-local local conns (conn.holder_id ∷ seen))

multi_loop-holds :
    (local c : Bytes) (conns : List ActiveConnection) (seen : List Bytes)
    → holds c (multi_loop local conns seen)
      ≡ (is_remote local c && not (holds c seen) && held_by c conns)
unfolding multi_loop holds held_by
multi_loop-holds local c [] seen = ground arith
multi_loop-holds local c (conn ∷ conns) seen = ground (
  arith,
  multi_loop-holds local c conns seen,
  multi_loop-holds local c conns (conn.holder_id ∷ seen),
  str_eq_iff conn.holder_id c,
  str_eq_iff conn.holder_id local,
  str_eq_iff local c,
)

multi_loop-is_distinct :
    (local : Bytes) (conns : List ActiveConnection) (seen : List Bytes)
    → is_distinct (multi_loop local conns seen) ≡ true
unfolding multi_loop is_distinct holds
multi_loop-is_distinct local [] seen = refl
multi_loop-is_distinct local (conn ∷ conns) seen = ground (
  arith,
  multi_loop-is_distinct local conns seen,
  multi_loop-is_distinct local conns (conn.holder_id ∷ seen),
  multi_loop-holds local conn.holder_id conns (conn.holder_id ∷ seen),
  str_eq_refl conn.holder_id,
)

-- The containers of a search: each holder of a row that is neither this container nor empty, once.
abbrev pub AsksHolders : Bytes → List ActiveConnection → List Bytes → Type 0
AsksHolders local rows containers =
    (is_distinct containers ≡ true)
    × ((c : Bytes) → holds c containers ≡ (is_remote local c && held_by c rows))

-- Unless the repository fails, a message to a user goes once to each other container that holds a
-- session of the user, and is handled here exactly if the user has a live connection here or a row
-- names this container, as that of a temporarily disconnected session does.
pub find_user_conn_exact :
    (m : ConnectionMap) (local user_id : Bytes) (q : QueryResult)
    → is_failure q.error ≡ false
    → (r : Routes) × (find_user_conn m local user_id q ≡ some r)
      × AsksHolders local q.rows r.containers
      × (r.local_action ≡ (not (is_nil (get_all_user_conn m user_id)) || held_by local q.rows))
unfolding find_user_conn holds
find_user_conn_exact m local user_id q fine = (
  record (user_loop local q.rows []) {
    local_action =
        not (is_nil (get_all_user_conn m user_id)) || (user_loop local q.rows []).local_action;
  },
  rw fine refl,
  (user_loop-is_distinct local q.rows [], λ c. ground (arith, user_loop-holds local c q.rows [])),
  ground (arith, user_loop-local local q.rows []),
)

-- Unless the repository fails, a message to several users goes once to each other container that
-- holds a session of one of the rows, and is handled here exactly if one of the users has a live
-- connection here. A row that names this container has no part in it: a session that is
-- temporarily disconnected here is left out where no user is live.
pub find_multi_user_conn_exact :
    (m : ConnectionMap) (local : Bytes) (user_ids : List Bytes) (q : QueryResult)
    → is_failure q.error ≡ false
    → (r : Routes) × (find_multi_user_conn m local user_ids q ≡ some r)
      × AsksHolders local q.rows r.containers
      × (r.local_action ≡ any_live m user_ids)
unfolding find_multi_user_conn holds
find_multi_user_conn_exact m local user_ids q fine = (
  record { local_action = any_live m user_ids; containers = multi_loop local q.rows [] },
  rw fine refl,
  (multi_loop-is_distinct local q.rows [], λ c. ground (arith, multi_loop-holds local c q.rows [])),
  refl,
)
