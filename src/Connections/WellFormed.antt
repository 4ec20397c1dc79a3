-- ===== src/Connections/WellFormed.antt =====
-- What holds of the maps that the methods build.
use go_pkg.Common.{
  Bytes, false, Option, none, some, ◌≡◌, refl, subst, str_eq, str_eq_iff, is_empty, arith,
  Option-cases, Bool-cases, inl, inr, List, [], ◌∷◌,
}
use go_pkg.Common.Table.{Table, get, put, del, no_entries, get-put, no_entries-put}
use go_pkg.Common.Unique.{Unique, Unique-put, Unique-del}
use go_pkg.Domain.{Auth, is_anonymous, Conn}
use go_pkg.Connections.{
  ConnectionMap, new, add_connection, keep_clients, remove_connection, or_empty, clients_of,
}
use go_pkg.Connections.Lookup.{get-keep_clients}

-- Keys stand once, no user is left with an empty inner table, and no user has the empty name.
pub record IsWellFormed (m : ConnectionMap) : Type 0 where
  pub users_unique : Unique m.user_conn
  pub anonymous_unique : Unique m.anonymous_conn
  pub clients_unique : (u : Bytes) (t : Table Conn) → get u m.user_conn ≡ some t → Unique t
  pub clients_nonempty :
      (u : Bytes) (t : Table Conn) → get u m.user_conn ≡ some t → no_entries t ≡ false
  pub users_named : get [] m.user_conn ≡ none

pub new-IsWellFormed : IsWellFormed new
unfolding get
new-IsWellFormed = record {
  users_unique = tt;
  anonymous_unique = tt;
  clients_unique = λ u t e. cc;
  clients_nonempty = λ u t e. cc;
  users_named = refl;
}

Unique-or_empty :
    (o : Option (Table Conn)) → ((t : Table Conn) → o ≡ some t → Unique t) → Unique (or_empty o)
Unique-or_empty none h = tt
Unique-or_empty (some t) h = h t refl

Unique-clients_of : (m : ConnectionMap) (u : Bytes) → IsWellFormed m → Unique (clients_of m u)
Unique-clients_of m u w = Unique-or_empty (get u m.user_conn) (w.clients_unique u)

-- A property of the inner tables survives a write of one that has it.
get-put_inv :
    (P : Table Conn → Type 0) (k u : Bytes) (s t : Table Conn) (outer : Table (Table Conn))
    → P s
    → (get u outer ≡ some t → P t)
    → get u (put k s outer) ≡ some t
    → P t
get-put_inv P k u s t outer h old e = elim (Bool-cases (str_eq k u)) [
  | inl same ↦ subst P (ground (arith, get-put u k s outer)) h
  | inr other ↦ old (ground (arith, get-put u k s outer))
]

pub add_connection-IsWellFormed :
    (m : ConnectionMap) (c : Conn) → IsWellFormed m → IsWellFormed (add_connection m c)
unfolding add_connection is_anonymous
add_connection-IsWellFormed m c w = elim (Bool-cases (is_empty c.auth.user_id)) [
  | inl anonymous ↦ rw anonymous (record {
    users_unique = w.users_unique;
    anonymous_unique = Unique-put c.auth.instance_id c m.anonymous_conn w.anonymous_unique;
    clients_unique = w.clients_unique;
    clients_nonempty = w.clients_nonempty;
    users_named = w.users_named;
  })
  | inr user ↦
      let clients = put c.auth.instance_id c (clients_of m c.auth.user_id) in
      rw user (record {
        users_unique = Unique-put c.auth.user_id clients m.user_conn w.users_unique;
        anonymous_unique = w.anonymous_unique;
        clients_unique = λ u t.
            get-put_inv Unique c.auth.user_id u clients t m.user_conn
              (Unique-put c.auth.instance_id c (clients_of m c.auth.user_id)
                (Unique-clients_of m c.auth.user_id w))
              (w.clients_unique u t);
        clients_nonempty = λ u t.
            get-put_inv (λ s. no_entries s ≡ false) c.auth.user_id u clients t m.user_conn
              (no_entries-put c.auth.instance_id c (clients_of m c.auth.user_id))
              (w.clients_nonempty u t);
        users_named = ground (
          arith,
          get-put [] c.auth.user_id clients m.user_conn,
          str_eq_iff c.auth.user_id [],
          w.users_named,
        );
      })
]

-- So does one from a user's table that is written back or, when empty, dropped.
get-keep_clients_inv :
    (P : Table Conn → Type 0) (k u : Bytes) (s t : Table Conn) (outer : Table (Table Conn))
    → (no_entries s ≡ false → P s)
    → (get u outer ≡ some t → P t)
    → get u (keep_clients k s outer) ≡ some t
    → P t
get-keep_clients_inv P k u s t outer h old e = elim (Bool-cases (str_eq k u)) [
  | inl same ↦ elim (Bool-cases (no_entries s)) [
    | inl empty ↦ absurd (ground (arith, get-keep_clients u k s outer))
    | inr some_left ↦ subst P (ground (arith, get-keep_clients u k s outer)) (h some_left)
  ]
  | inr other ↦ old (ground (arith, get-keep_clients u k s outer))
]

Unique-keep_clients :
    (k : Bytes) (s : Table Conn) (outer : Table (Table Conn))
    → Unique outer
    → Unique (keep_clients k s outer)
unfolding keep_clients
Unique-keep_clients k s outer w = elim (Bool-cases (no_entries s)) [
  | inl e ↦ rw e (Unique-del k outer w)
  | inr e ↦ rw e (Unique-put k s outer w)
]

pub remove_connection-IsWellFormed :
    (m : ConnectionMap) (a : Auth) → IsWellFormed m → IsWellFormed (remove_connection m a)
unfolding remove_connection is_anonymous
remove_connection-IsWellFormed m a w = elim (Bool-cases (is_empty a.user_id)) [
  | inl anonymous ↦ rw anonymous (record {
    users_unique = w.users_unique;
    anonymous_unique = Unique-del a.instance_id m.anonymous_conn w.anonymous_unique;
    clients_unique = w.clients_unique;
    clients_nonempty = w.clients_nonempty;
    users_named = w.users_named;
  })
  | inr user ↦ elim (Option-cases (get a.user_id m.user_conn)) [
    | inl unknown ↦ rw (user, unknown) w
    | inr (old, known) ↦
        let clients = del a.instance_id old in
        rw (user, known)
          (record {
            users_unique = Unique-keep_clients a.user_id clients m.user_conn w.users_unique;
            anonymous_unique = w.anonymous_unique;
            clients_unique = λ u t.
                get-keep_clients_inv Unique a.user_id u clients t m.user_conn
                  (λ left. Unique-del a.instance_id old (w.clients_unique a.user_id old known))
                  (w.clients_unique u t);
            clients_nonempty = λ u t.
                get-keep_clients_inv (λ s. no_entries s ≡ false) a.user_id u clients t m.user_conn
                  (λ left. left) (w.clients_nonempty u t);
            users_named = ground (
              arith,
              get-keep_clients [] a.user_id clients m.user_conn,
              str_eq_iff a.user_id [],
              w.users_named,
            );
          })
  ]
]

pub data Change : Type 0 where
  adds : Conn → Change
  removes : Auth → Change

pub change : ConnectionMap → Change → ConnectionMap
change m (adds c) = add_connection m c
change m (removes a) = remove_connection m a

pub changes : ConnectionMap → List Change → ConnectionMap
changes m [] = m
changes m (x ∷ xs) = changes (change m x) xs

changes_from-IsWellFormed :
    (m : ConnectionMap) (xs : List Change) → IsWellFormed m → IsWellFormed (changes m xs)
unfolding changes change
changes_from-IsWellFormed m [] w = w
changes_from-IsWellFormed m (adds c ∷ xs) w =
    changes_from-IsWellFormed (add_connection m c) xs (add_connection-IsWellFormed m c w)
changes_from-IsWellFormed m (removes a ∷ xs) w =
    changes_from-IsWellFormed (remove_connection m a) xs (remove_connection-IsWellFormed m a w)

-- Whatever connections come and go, no key is doubled and no user keeps an empty inner map.
pub changes-IsWellFormed : (xs : List Change) → IsWellFormed (changes new xs)
changes-IsWellFormed xs = changes_from-IsWellFormed new xs new-IsWellFormed
