-- ===== src/Shutdown/Handover.antt =====
-- Every session is closed, and every named one can be taken over by any container.
use go_pkg.Common.{
  ℕ, true, false, ◌≡◌, refl, ap, sym, ◌∙◌, subst, str_eq_iff, none, some, List, [], ◌∷◌,
  if◌then◌else◌, Bool-cases, Option-cases, inl, inr, arith,
}
use go_pkg.Common.Table.{values, get}
use go_pkg.Common.Unique.{get_of_mem-values, mem-values_of_get}
use go_pkg.Common.Nested.{get2}
use go_pkg.Domain.{Auth, is_anonymous, same_session, Conn, transferring}
use go_pkg.Connections.{
  ConnectionMap, get_connection, get_all_anonymous_conn, get_all_authenticated_conn, all_clients,
}
use go_pkg.Connections.WellFormed.{IsWellFormed}
use go_pkg.Connections.Listing.{mem-all_clients}
use go_pkg.Acks.{AckManager}
use go_pkg.Acks.Safety.{IsSound, shutdown_wakes_all}
use go_pkg.ActiveConns.{Rows, Row, update_status_transferring}
use go_pkg.ActiveConns.Rows.{map_row, get2-update, get2-remove_connection}
use go_pkg.Lifecycle.{World, Faults, on_close, forget, leave, remove_row}
use go_pkg.Shutdown.Keyed.{
  IsKeyed, covers, covers-mem, mem-covers, get_connection-close_conns, close_conns-IsKeyed,
}
use go_pkg.Shutdown.{close_conns, transition_all, Ended, mark_shutting_down, hand_over, shutdown}

-- While the container shuts down, closing changes neither the hub nor the row of a named session.
module _ (a : Auth) (named : is_anonymous a ≡ false) where
  on_close-quiet :
      (w : World) (b : Auth) (now : ℕ) (f : Faults)
      → w.here.shutting_down ≡ true
      → let w' = (on_close w b now f).0 in
        (w'.here.shutting_down ≡ true)
        × (w'.here.hub ≡ w.here.hub)
        × (get2 a.user_id a.instance_id w'.rows ≡ get2 a.user_id a.instance_id w.rows)
  unfolding on_close forget leave remove_row is_anonymous
  on_close-quiet w b now f down = ground (
    arith,
    down,
    named,
    get2-remove_connection w.rows b.user_id b.instance_id a.user_id a.instance_id,
    str_eq_iff b.user_id a.user_id,
  )

  close_conns-quiet :
      (w : World) (cs : List Conn) (now : ℕ) (f : Faults)
      → w.here.shutting_down ≡ true
      → let w' = (close_conns w cs now f).0 in
        (w'.here.shutting_down ≡ true)
        × (w'.here.hub ≡ w.here.hub)
        × (get2 a.user_id a.instance_id w'.rows ≡ get2 a.user_id a.instance_id w.rows)
  unfolding close_conns
  close_conns-quiet w [] now f down = (down, refl, refl)
  close_conns-quiet w (c ∷ cs) now f down =
      let first = on_close-quiet w c.auth now f down in
      let rest = close_conns-quiet (on_close w c.auth now f).0 cs now f first.0 in
      (rest.0, rest.1 ∙ first.1, rest.2 ∙ first.2)

  abbrev moved : Row → Row
  moved row = record row { status = transferring; holder_id = [] }

  get2-transition_all :
      (rows : Rows) (cs : List Conn)
      → get2 a.user_id a.instance_id (transition_all rows cs (λ c. true)) ≡ (
          if covers cs a
          then map_row moved (get2 a.user_id a.instance_id rows)
          else get2 a.user_id a.instance_id rows)
  unfolding transition_all covers same_session update_status_transferring
  get2-transition_all rows [] = refl
  get2-transition_all rows (c ∷ cs) =
      let rows' = update_status_transferring rows c.auth.user_id c.auth.instance_id in
      let first =
        get2-update rows c.auth.user_id c.auth.instance_id a.user_id a.instance_id moved in
      elim (Option-cases (get2 a.user_id a.instance_id rows)) [
        | inl gone ↦ ground (arith, first, gone, get2-transition_all rows' cs)
        | inr (row, e) ↦ ground (arith, first, e, get2-transition_all rows' cs)
      ]

  -- A named session that is found is among the authenticated connections.
  covers-authenticated :
      (m : ConnectionMap) {c : Conn}
      → IsKeyed m
      → get_connection m a ≡ some c
      → covers (get_all_authenticated_conn m) a ≡ true
  unfolding get_all_authenticated_conn get_connection is_anonymous
  covers-authenticated m {c} keyed e = elim (Option-cases (get a.user_id m.user_conn)) [
    | inl unknown ↦ absurd (ground (arith, named, unknown, e))
    | inr (t, known) ↦
        covers-mem (all_clients m.user_conn) a {c = c}
          (mem-all_clients m.user_conn a.user_id t known
            (mem-values_of_get a.instance_id t (ground (arith, named, known, e))))
          (keyed a c e)
  ]

  -- None of the anonymous connections is one of it.
  not_anonymous :
      (m : ConnectionMap) → IsKeyed m → IsWellFormed m → covers (get_all_anonymous_conn m) a ≡ false
  unfolding get_all_anonymous_conn get_connection is_anonymous same_session
  not_anonymous m keyed h = elim (Bool-cases (covers (get_all_anonymous_conn m) a)) [
    | inr no_one ↦ no_one
    | inl covered ↦
        let (c, at, same) = mem-covers (values m.anonymous_conn) a covered in
        let (i, found) = get_of_mem-values m.anonymous_conn h.anonymous_unique at in
        let own = keyed (record { user_id = []; instance_id = i }) c found in
        absurd (
          ground (
            arith,
            own,
            same,
            named,
            str_eq_iff c.auth.user_id [],
            str_eq_iff c.auth.user_id a.user_id,
          ))
  ]

covers-anonymous :
    (m : ConnectionMap) (b : Auth) {c : Conn}
    → IsKeyed m
    → is_anonymous b ≡ true
    → get_connection m b ≡ some c
    → covers (get_all_anonymous_conn m) b ≡ true
unfolding get_all_anonymous_conn get_connection is_anonymous
covers-anonymous m b {c} keyed anonymous e =
    covers-mem (values m.anonymous_conn) b {c = c}
      (mem-values_of_get b.instance_id m.anonymous_conn (ground (arith, anonymous, e)))
      (keyed b c e)

-- The second loop finds what the first has left.
all_closed :
    (w moved : World) (now : ℕ) (f : Faults)
    → IsKeyed w.here.conns
    → let closed = (close_conns w (get_all_anonymous_conn w.here.conns) now f).0 in
      moved.here.conns ≡ closed.here.conns
      → (b : Auth)
      → get_connection
          (close_conns moved (get_all_authenticated_conn moved.here.conns) now f).0.here.conns
          b
        ≡ none
all_closed w moved now f keyed same b =
    let anonymous = get_all_anonymous_conn w.here.conns in
    let named = get_all_authenticated_conn moved.here.conns in
    let left : get_connection moved.here.conns b
        ≡ (if covers anonymous b then none else get_connection w.here.conns b) =
      ap (λ m. get_connection m b) same ∙ get_connection-close_conns w anonymous now f b in
    let keyed' : IsKeyed moved.here.conns =
      subst IsKeyed (sym same) (close_conns-IsKeyed w anonymous now f keyed) in
    get_connection-close_conns moved named now f b
    ∙ elim (Option-cases (get_connection moved.here.conns b)) [
      | inl gone ↦ ground (arith, gone)
      | inr (c, found) ↦ elim (Bool-cases (is_anonymous b)) [
        | inl anon ↦ elim (Option-cases (get_connection w.here.conns b)) [
          | inl never ↦ absurd (ground (arith, left, never, found))
          | inr (c', before) ↦ absurd (
              ground
                (arith, left, found, covers-anonymous w.here.conns b {c = c'} keyed anon before))
        ]
        | inr user ↦
            ground (arith, covers-authenticated b user moved.here.conns {c = c} keyed' found)
      ]
    ]

-- From sound acks and a connection map that is well-formed and keyed by the sessions of its
-- connections, where every row can be written, `Shutdown` does not panic. Afterwards no session
-- finds a connection here and no ack is pending. The row of a named session that was live says that it is being
-- transferred and names no container, so that any can take it over, and its registration in the hub is as it was: messages for
-- it are not buffered here.
pub shutdown_hands_over :
    (w : World) (acks : AckManager) (now : ℕ) (f : Faults) (a : Auth) (conn : Conn) (row : Row)
    → IsSound acks
    → IsWellFormed w.here.conns
    → IsKeyed w.here.conns
    → is_anonymous a ≡ false
    → get_connection w.here.conns a ≡ some conn
    → get2 a.user_id a.instance_id w.rows ≡ some row
    → (r : Ended) × (shutdown w acks (λ c. true) now f ≡ some r)
      × (r.acks.pending ≡ [])
      × ((b : Auth) → get_connection r.world.here.conns b ≡ none)
      × (get2 a.user_id a.instance_id r.world.rows
          ≡ some (record row { status = transferring; holder_id = [] }))
      × (get2 a.user_id a.instance_id r.world.here.hub.registry
          ≡ get2 a.user_id a.instance_id w.here.hub.registry)
unfolding shutdown hand_over mark_shutting_down
shutdown_hands_over w acks now f a conn row sound h keyed named live at =
    let (acks', acks_end, sound', cleared) = shutdown_wakes_all acks sound in
    let marked = mark_shutting_down w in
    let closed = (close_conns marked (get_all_anonymous_conn w.here.conns) now f).0 in
    let named_conns = get_all_authenticated_conn closed.here.conns in
    let shifted : World = record closed {
      rows = transition_all closed.rows named_conns (λ c. true);
    } in
    let ended = hand_over marked acks' (λ c. true) now f in
    let quiet = close_conns-quiet a named marked (get_all_anonymous_conn w.here.conns) now f refl in
    let still_listed : covers named_conns a ≡ true =
      covers-authenticated a named closed.here.conns {c = conn}
        (close_conns-IsKeyed marked (get_all_anonymous_conn w.here.conns) now f keyed)
        (get_connection-close_conns marked (get_all_anonymous_conn w.here.conns) now f a
          ∙ rw (not_anonymous a named w.here.conns keyed h) live) in
    let quiet' = close_conns-quiet a named shifted named_conns now f quiet.0 in
    (
      ended,
      rw (acks_end, shutdown) refl,
      cleared.0,
      all_closed marked shifted now f keyed refl,
      quiet'.2
          ∙ get2-transition_all a named closed.rows named_conns
          ∙ rw (still_listed, quiet.2, at) refl,
      ap (λ h. get2 a.user_id a.instance_id h.registry) (quiet'.1 ∙ quiet.1),
    )
