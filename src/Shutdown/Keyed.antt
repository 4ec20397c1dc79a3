-- ===== src/Shutdown/Keyed.antt =====
-- Maps in which a connection is found under its own session, and the loops that close them.
use go_pkg.Common.{
  ℕ, Bool, true, false, ◌||◌, ◌≡◌, refl, ap, sym, ◌∙◌, subst, none, some, List, [], ◌∷◌,
  if◌then◌else◌, Bool-cases, inl, inr, arith,
}
use mathlib.Core.List.{Memᴰ}
use go_pkg.Common.Table.{get}
use go_pkg.Domain.{Auth, same_session, Conn}
use go_pkg.Connections
use go_pkg.Connections.{
  ConnectionMap, get_connection, get_all_anonymous_conn, get_all_authenticated_conn, all_clients,
}
use go_pkg.Connections.Lookup.{get_connection-remove_connection, get_connection-add_connection}
use go_pkg.Connections.WellFormed.{IsWellFormed, remove_connection-IsWellFormed}
use go_pkg.Lifecycle.{World, Faults, on_close}
use go_pkg.Lifecycle.Admission.{conns-on_close}
use go_pkg.Shutdown.{close_conns}

-- A connection is found under its own session.
abbrev pub IsKeyed : ConnectionMap → Type 0
IsKeyed m = (a : Auth) (c : Conn) → get_connection m a ≡ some c → same_session c.auth a ≡ true

pub remove_connection-IsKeyed :
    (m : ConnectionMap) (x : Auth) → IsKeyed m → IsKeyed (Connections.remove_connection m x)
remove_connection-IsKeyed m x keyed a c e = elim (Bool-cases (same_session x a)) [
  | inl same ↦ absurd (ground (arith, same, get_connection-remove_connection m x a))
  | inr other ↦ keyed a c (ground (arith, other, get_connection-remove_connection m x a))
]

-- Whether a list of connections has one of the session.
unfoldable pub covers : List Conn → Auth → Bool
covers [] a = false
covers (c ∷ cs) a = same_session c.auth a || covers cs a

pub covers-mem :
    (cs : List Conn) (a : Auth) {c : Conn}
    → Memᴰ c cs
    → same_session c.auth a ≡ true
    → covers cs a ≡ true
unfolding covers
covers-mem [] a h s = elim h [ ]
covers-mem (x ∷ cs) a (Memᴰ.head e) s = ground (arith, e, s)
covers-mem (x ∷ cs) a (Memᴰ.tail h) s = ground (arith, covers-mem cs a h s)

pub mem-covers :
    (cs : List Conn) (a : Auth)
    → covers cs a ≡ true
    → (c : Conn) × Memᴰ c cs × (same_session c.auth a ≡ true)
unfolding covers
mem-covers [] a h = cc
mem-covers (x ∷ cs) a h = elim (Bool-cases (same_session x.auth a)) [
  | inl same ↦ (x, Memᴰ.head refl, same)
  | inr other ↦ let (c, at, same) = mem-covers cs a (ground arith) in (c, Memᴰ.tail at, same)
]

pub get_connection-close_conns :
    (w : World) (cs : List Conn) (now : ℕ) (f : Faults) (a : Auth)
    → get_connection (close_conns w cs now f).0.here.conns a
      ≡ (if covers cs a then none else get_connection w.here.conns a)
unfolding close_conns covers
get_connection-close_conns w [] now f a = refl
get_connection-close_conns w (c ∷ cs) now f a =
    let w' = (on_close w c.auth now f).0 in
    let first : get_connection w'.here.conns a
        ≡ (if same_session c.auth a then none else get_connection w.here.conns a) =
      ap (λ m. get_connection m a) (conns-on_close w c.auth now f)
      ∙ get_connection-remove_connection w.here.conns c.auth a in
    ground (arith, first, get_connection-close_conns w' cs now f a)

pub close_conns-IsWellFormed :
    (w : World) (cs : List Conn) (now : ℕ) (f : Faults)
    → IsWellFormed w.here.conns
    → IsWellFormed (close_conns w cs now f).0.here.conns
unfolding close_conns
close_conns-IsWellFormed w [] now f h = h
close_conns-IsWellFormed w (c ∷ cs) now f h =
    close_conns-IsWellFormed (on_close w c.auth now f).0 cs now f (
      subst IsWellFormed (sym (conns-on_close w c.auth now f))
        (remove_connection-IsWellFormed w.here.conns c.auth h))

pub close_conns-IsKeyed :
    (w : World) (cs : List Conn) (now : ℕ) (f : Faults)
    → IsKeyed w.here.conns
    → IsKeyed (close_conns w cs now f).0.here.conns
unfolding close_conns
close_conns-IsKeyed w [] now f h = h
close_conns-IsKeyed w (c ∷ cs) now f h = close_conns-IsKeyed (on_close w c.auth now f).0 cs now f (
    subst IsKeyed (sym (conns-on_close w c.auth now f))
      (remove_connection-IsKeyed w.here.conns c.auth h))

pub new-IsKeyed : IsKeyed Connections.new
unfolding get_connection get
new-IsKeyed a c e = ground (arith, e)

pub add_connection-IsKeyed :
    (m : ConnectionMap) (x : Conn) → IsKeyed m → IsKeyed (Connections.add_connection m x)
add_connection-IsKeyed m x keyed a c e = elim (Bool-cases (same_session x.auth a)) [
  | inl same ↦ ground (arith, same, e, get_connection-add_connection m x a)
  | inr other ↦ keyed a c (ground (arith, other, e, get_connection-add_connection m x a))
]
