-- ===== src/Connections/Listing.antt =====
-- What the listings return, on the maps that the methods build.
use go_pkg.Common.{
  Bytes, false, some, ◌≡◌, ◌↔◌, refl, subst, str_eq, str_eq_iff, str_eq_refl, is_empty, arith,
  Option-cases, Bool-cases, inl, inr, [], ◌∷◌,
}
use mathlib.Core.List.{Memᴰ}
use mathlib.Core.List.Memᴰ
use go_pkg.Common.Table.{Table, get, values}
use go_pkg.Common.Unique.{Unique, mem-values_of_get, get_of_mem-values}
use go_pkg.Domain.{Auth, is_anonymous, Conn}
use go_pkg.Connections.{
  ConnectionMap, get_connection, get_all_user_conn, all_clients, get_all_connections,
}
-- Keys stand once, no user is left with an empty inner table, and no user has the empty name.
use go_pkg.Connections.WellFormed.{IsWellFormed}

pub mem-all_clients :
    (outer : Table (Table Conn)) (u : Bytes) (t : Table Conn) {c : Conn}
    → get u outer ≡ some t
    → Memᴰ c (values t)
    → Memᴰ c (all_clients outer)
unfolding get all_clients
mem-all_clients [] u t e h = cc
mem-all_clients ((k, s) ∷ outer) u t {c} e h = elim (Bool-cases (str_eq k u)) [
  | inl same ↦
      Memᴰ.append_left (all_clients outer) (subst (λ x. Memᴰ c (values x)) (ground arith) h)
  | inr other ↦ Memᴰ.append_right (values s) (mem-all_clients outer u t (ground arith) h)
]

all_clients-mem :
    (outer : Table (Table Conn)) {c : Conn}
    → Unique outer
    → Memᴰ c (all_clients outer)
    → (u : Bytes) × (t : Table Conn) × (get u outer ≡ some t) × Memᴰ c (values t)
unfolding get all_clients
all_clients-mem [] w h = elim h [ ]
all_clients-mem ((k, s) ∷ outer) w h = elim (Memᴰ.append_cases (values s) h) [
  | inl here ↦ (k, s, rw (str_eq_refl k), here)
  | inr there ↦
      let (u, t, e, below) = all_clients-mem outer w.1 there in
      (u, t, ground (arith, str_eq_iff k u, w.0), below)
]

-- A user whose table stands in the map has a name.
user_named :
    (m : ConnectionMap) (u : Bytes) {t : Table Conn}
    → IsWellFormed m
    → get u m.user_conn ≡ some t
    → is_empty u ≡ false
user_named m [] w e = cc w.users_named
user_named m (b ∷ u) w e = refl

-- On a well-formed map and for a non-empty user ID, `GetAllUserConn` lists a connection if and
-- only if some session of the user finds it.
pub get_all_user_conn_exact :
    (m : ConnectionMap) (u : Bytes) (c : Conn)
    → IsWellFormed m
    → is_empty u ≡ false
    → Memᴰ c (get_all_user_conn m u)
      ↔ ((i : Bytes) × (get_connection m (record { user_id = u; instance_id = i }) ≡ some c))
unfolding get_all_user_conn get_connection is_anonymous
get_all_user_conn_exact m u c w named = elim (Option-cases (get u m.user_conn)) [
  | inl unknown ↦
      rw (named, unknown, get_all_user_conn)
        (λ h. absurd (Memᴰ.not-nil h), λ k. (let e = k.1 in cc))
  | inr (t, known) ↦
      rw (named, known, get_all_user_conn)
        (λ h. get_of_mem-values t (w.clients_unique u t known) h, λ k. mem-values_of_get k.0 t k.1)
]

-- On a well-formed map `GetAllConnections` lists a connection if and only if some session finds
-- it, a user's or an anonymous one.
pub get_all_connections_exact :
    (m : ConnectionMap) (c : Conn)
    → IsWellFormed m
    → Memᴰ c (get_all_connections m) ↔ ((a : Auth) × (get_connection m a ≡ some c))
unfolding get_all_connections get_connection is_anonymous
get_all_connections_exact m c w = (
  λ h. elim (Memᴰ.append_cases (all_clients m.user_conn) h) [
    | inl user ↦
        let (u, t, known, here) = all_clients-mem m.user_conn w.users_unique user in
        let (i, e) = get_of_mem-values t (w.clients_unique u t known) here in
        (record { user_id = u; instance_id = i }, rw (user_named m u w known, known) e)
    | inr anonymous ↦
        let (i, e) = get_of_mem-values m.anonymous_conn w.anonymous_unique anonymous in
        (record { user_id = []; instance_id = i }, e)
  ],
  λ k.
      let (a, e) = k in
      elim (Bool-cases (is_empty a.user_id)) [
        | inl anonymous ↦
            Memᴰ.append_right (all_clients m.user_conn)
              (mem-values_of_get a.instance_id m.anonymous_conn (ground arith))
        | inr named ↦ elim (Option-cases (get a.user_id m.user_conn)) [
          | inl unknown ↦ absurd (ground arith)
          | inr (t, known) ↦ Memᴰ.append_left (values m.anonymous_conn) (
              mem-all_clients m.user_conn a.user_id t known
                (mem-values_of_get a.instance_id t (ground arith)))
        ]
      ],
)
