-- ===== src/Lifecycle/Sessions/Opening.antt =====
-- A connection that opens finds its session closed, and leaves it live.
use go_pkg.Common.{
  ℕ, true, false, ◌≡◌, refl, sym, ap, subst, ◌∙◌, Bytes, is_empty, str_eq_iff, str_eq_refl, none,
  some, is_some, List, [], Option-cases, inl, inr, arith,
}
use go_pkg.Common.Nested.{get2, get2-del2}
use go_pkg.Domain.{Auth, is_anonymous, Conn, temp_disconnected}
use go_pkg.Connections.{ConnectionMap, get_connection}
use go_pkg.Connections.Lookup.{get_connection-remove_connection}
use go_pkg.MsgHub
use go_pkg.Delivery
use go_pkg.ActiveConns.{Row, is_fresh, get_instance_connection}
use go_pkg.Lifecycle.{
  Env, no_faults, Container, World, on_close, forget, leave, close_existing, previous_row,
  meet_previous, meet_row, resume_session, on_new,
}
use go_pkg.Lifecycle.Admission.{conns-on_close, id-close_existing, shutting_down-close_existing}
use go_pkg.Lifecycle.Admitted.{IsAdmitted-via, close_existing-none}
use go_pkg.Lifecycle.Moves.{same_session_refl, closed_after_move}
use go_pkg.Lifecycle.Sessions.{world_of, Phase, absent, live, away, left_behind, Agrees}

abbrev pub IsUp : World → Type 0
IsUp w = (w.here.shutting_down ≡ false) × (is_empty w.here.id ≡ false)

abbrev pub Fresh : Env → World → Auth → ℕ → Type 0
Fresh e w b now =
    (row : Row)
    → get2 b.user_id b.instance_id w.rows ≡ some row
    → is_fresh e.heartbeat_cutoff now row ≡ true

module _ (b : Auth) (named : is_anonymous b ≡ false) where
  conn_gone :
      (w : World) (now : ℕ) → get_connection (on_close w b now no_faults).0.here.conns b ≡ none
  conn_gone w now =
      rw (conns-on_close w b now no_faults)
        (get_connection-remove_connection w.here.conns b b ∙ rw (same_session_refl b) refl)

  id-on_close : (w : World) (now : ℕ) → (on_close w b now no_faults).0.here.id ≡ w.here.id
  unfolding on_close forget leave
  id-on_close w now = ground arith

  pub left_live :
      (w : World) (now : ℕ)
      → IsUp w
      → Agrees w b live
      → Agrees (on_close w b now no_faults).0 b away
  left_live w now up ((row, at, st, held), c, r) =
      let left = closed_after_move w b now row named up.0 at in
      (
        (record row { status = temp_disconnected }, left.0, refl, held ∙ sym (id-on_close w now)),
        conn_gone w now,
        ap is_some left.1,
      )

  -- What an event of opening finds once the existing connection is closed.
  closed_phase :
      (w : World) (now : ℕ) (p : Phase)
      → IsUp w
      → Agrees w b p
      → Agrees (close_existing w b now no_faults).0 b (left_behind p)
  unfolding close_existing
  closed_phase w now absent up h =
      subst (λ q. Agrees q.0 b absent) (sym (close_existing-none w b now no_faults h.1)) h
  closed_phase w now away up h =
      subst (λ q. Agrees q.0 b away) (sym (close_existing-none w b now no_faults h.1)) h
  closed_phase w now live up h = elim (Option-cases (get_connection w.here.conns b)) [
    | inl nothing ↦ absurd (ground (arith, h.1))
    | inr (conn, e) ↦ rw (e, close_existing) (left_live w now up h)
  ]

  closed-Fresh :
      (e : Env) (w : World) (now : ℕ) (p : Phase)
      → IsUp w
      → Agrees w b p
      → Fresh e w b now
      → Fresh e (close_existing w b now no_faults).0 b now
  unfolding close_existing is_fresh
  closed-Fresh e w now absent up h fresh =
      subst (λ q. Fresh e q.0 b now) (sym (close_existing-none w b now no_faults h.1)) fresh
  closed-Fresh e w now away up h fresh =
      subst (λ q. Fresh e q.0 b now) (sym (close_existing-none w b now no_faults h.1)) fresh
  closed-Fresh e w now live up h fresh = elim (Option-cases (get_connection w.here.conns b)) [
    | inl nothing ↦ absurd (ground (arith, h.1))
    | inr (conn, some_conn) ↦
        rw (some_conn, close_existing)
          (λ row at.
            let left = closed_after_move w b now h.0.0 named up.0 h.0.1 in
            ground (arith, fresh h.0.0 h.0.1, left.0))
  ]

  -- The switch then finds nothing, or a registration of this container, which it takes away.
  meets :
      (e : Env) (w : World) (now : ℕ) (p : Phase)
      → IsUp w
      → Agrees w b (left_behind p)
      → Fresh e w b now
      → (c : Container) × (meet_previous w.here b (previous_row e w.rows b now true) ≡ some (c, []))
        × (get2 b.user_id b.instance_id c.hub.registry ≡ none)
  unfolding get_instance_connection meet_previous meet_row resume_session Delivery.resume_session
      MsgHub.deregister
  meets e w now absent up h fresh = (w.here, ground (arith, h.0), h.2)
  meets e w now live up ((row, at, st, held), c, r) fresh = (
    record w.here { hub = MsgHub.deregister w.here.hub b.user_id b.instance_id },
    ground (arith, at, st, held, up.1, fresh row at, str_eq_iff row.holder_id w.here.id),
    get2-del2 b.user_id b.instance_id b.user_id b.instance_id w.here.hub.registry
        ∙ rw (str_eq_refl b.user_id, str_eq_refl b.instance_id) refl,
  )
  meets e w now away up ((row, at, st, held), c, r) fresh = (
    record w.here { hub = MsgHub.deregister w.here.hub b.user_id b.instance_id },
    ground (arith, at, st, held, up.1, fresh row at, str_eq_iff row.holder_id w.here.id),
    get2-del2 b.user_id b.instance_id b.user_id b.instance_id w.here.hub.registry
        ∙ rw (str_eq_refl b.user_id, str_eq_refl b.instance_id) refl,
  )

  IsUp-close_existing : (w : World) (now : ℕ) → IsUp w → IsUp (close_existing w b now no_faults).0
  IsUp-close_existing w now up = (
    shutting_down-close_existing w b now no_faults ∙ up.0,
    ap is_empty (id-close_existing w b now no_faults) ∙ up.1,
  )

found_some :
    (m : ConnectionMap) (b : Auth) (conn : Conn)
    → get_connection m b ≡ some conn
    → is_some (get_connection m b) ≡ true
found_some m b conn e = ap is_some e

pub opened_live :
    (e : Env) (w : World) (conn : Conn) (now : ℕ) (pending : List Bytes) (p : Phase)
    → is_anonymous conn.auth ≡ false
    → IsUp w
    → Agrees w conn.auth p
    → Fresh e w conn.auth now
    → Agrees (world_of (on_new e w conn now no_faults pending)) conn.auth live
opened_live e w conn now pending p named up h fresh =
    let b = conn.auth in
    let w' = (close_existing w b now no_faults).0 in
    let (c, met, gone) =
      meets b named e w' now p (IsUp-close_existing b named w now up)
        (closed_phase b named w now p up h) (closed-Fresh b named e w now p up h fresh) in
    let (after, effects, accepts, admitted, hub, signal) =
      IsAdmitted-via e w conn now no_faults pending c [] refl met in
    rw accepts (
      (
        admitted.row,
        admitted.row_written,
        admitted.row_connected,
        admitted.held_here ∙ sym admitted.id_kept,
      ),
      found_some after.here.conns b conn (admitted.found_here b ∙ rw (same_session_refl b) refl),
      ap (λ h. get2 b.user_id b.instance_id h.registry) hub ∙ gone,
    )
