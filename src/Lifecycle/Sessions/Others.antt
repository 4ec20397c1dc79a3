-- ===== src/Lifecycle/Sessions/Others.antt =====
-- The events of one session leave what is kept of another.
use go_pkg.Common.{
  ℕ, ◌+◌, true, false, ◌≡◌, refl, sym, ap, subst, ◌∙◌, Bytes, Option, none, some, is_some, List,
  Option-cases, inl, inr, arith,
}
use go_pkg.Common.Nested.{get2, get2-put2, get2-del2}
use go_pkg.Domain.{Auth, same_session, Conn, temp_disconnected}
use go_pkg.Connections.{get_connection}
use go_pkg.Connections.Lookup.{get_connection-remove_connection}
use go_pkg.MsgHub
use go_pkg.MsgHub.{Timer}
use go_pkg.MsgHub.Registry.{get2-expire}
use go_pkg.Delivery
use go_pkg.ActiveConns.{Row, update_heart_beat, ttl_from}
use go_pkg.ActiveConns.Rows.{get2-update, get2-update_status, get2-remove_connection}
use go_pkg.Lifecycle.{
  Env, no_faults, Container, World, Effect, on_close, forget, leave, remove_row, close_existing,
  previous_row, meet_previous, meet_row, resume_session, on_expired, on_new, panics, meet_and_claim,
}
use go_pkg.Lifecycle.Admitted.{IsAdmitted-via, close_existing-none}
use go_pkg.Lifecycle.Sessions.{
  Event, opens, leaves, beats, expires, world_of, step, Phase, absent, live, away, concerns, Agrees,
}

-- Two worlds that say the same of a session.
abbrev pub SameView : World → World → Auth → Type 0
SameView w w' a =
    (get2 a.user_id a.instance_id w'.rows ≡ get2 a.user_id a.instance_id w.rows)
    × (get_connection w'.here.conns a ≡ get_connection w.here.conns a)
    × (get2 a.user_id a.instance_id w'.here.hub.registry
        ≡ get2 a.user_id a.instance_id w.here.hub.registry)
    × (w'.here.id ≡ w.here.id)

pub Agrees-SameView :
    (w w' : World) (a : Auth) (p : Phase) → SameView w w' a → Agrees w a p → Agrees w' a p
Agrees-SameView w w' a absent s h = (s.0 ∙ h.0, s.1 ∙ h.1, s.2 ∙ h.2)
Agrees-SameView w w' a live s ((row, at, st, held), c, r) =
    ((row, s.0 ∙ at, st, held ∙ sym s.3), ap is_some s.1 ∙ c, s.2 ∙ r)
Agrees-SameView w w' a away s ((row, at, st, held), c, r) =
    ((row, s.0 ∙ at, st, held ∙ sym s.3), s.1 ∙ c, ap is_some s.2 ∙ r)

SameView-trans :
    (w w' w'' : World) (a : Auth) → SameView w w' a → SameView w' w'' a → SameView w w'' a
SameView-trans w w' w'' a s t = (t.0 ∙ s.0, t.1 ∙ s.1, t.2 ∙ s.2, t.3 ∙ s.3)

pub on_new-panics :
    (e : Env) (w : World) (conn : Conn) (now : ℕ) (pending : List Bytes)
    → let w' = (close_existing w conn.auth now no_faults).0 in
      meet_previous w'.here conn.auth (previous_row e w'.rows conn.auth now true) ≡ none
      → on_new e w conn now no_faults pending ≡ panics w'
unfolding on_new meet_and_claim
on_new-panics e w conn now pending h = rw (h, meet_and_claim) refl

-- Events of another session.
module _ (a b : Auth) (other : same_session b a ≡ false) where
  on_close-other : (w : World) (now : ℕ) → SameView w (on_close w b now no_faults).0 a
  unfolding on_close forget leave remove_row MsgHub.register same_session
  on_close-other w now = ground (
    arith,
    other,
    get2-remove_connection w.rows b.user_id b.instance_id a.user_id a.instance_id,
    get2-update_status w.rows b.user_id b.instance_id a.user_id a.instance_id temp_disconnected,
    get_connection-remove_connection w.here.conns b a,
    get2-put2 b.user_id b.instance_id a.user_id a.instance_id (w.here.hub.gen_seq + 1)
        w.here.hub.registry,
  )

  close_existing-other : (w : World) (now : ℕ) → SameView w (close_existing w b now no_faults).0 a
  unfolding close_existing
  close_existing-other w now = elim (Option-cases (get_connection w.here.conns b)) [
    | inl nothing ↦
        subst (λ p. SameView w p.0 a) (sym (close_existing-none w b now no_faults nothing))
          (refl, refl, refl, refl)
    | inr (conn, e) ↦ rw (e, close_existing) (on_close-other w now)
  ]

  -- What the switch does to the registry.
  abbrev KeepsOther : Container → Option (Container × List Effect) → Type 0
  KeepsOther c none = Unit {0}
  KeepsOther c (some (c', effects)) =
      get2 a.user_id a.instance_id c'.hub.registry ≡ get2 a.user_id a.instance_id c.hub.registry

  meet_previous-KeepsOther : (c : Container) (o : Option Row) → KeepsOther c (meet_previous c b o)
  unfolding meet_previous meet_row resume_session Delivery.resume_session MsgHub.deregister
      same_session
  meet_previous-KeepsOther c none = refl
  meet_previous-KeepsOther c (some row) =
      ground
        (arith, other, get2-del2 b.user_id b.instance_id a.user_id a.instance_id c.hub.registry)

module _ (a : Auth) where
  on_new-other :
      (e : Env) (w : World) (conn : Conn) (now : ℕ) (pending : List Bytes)
      → same_session conn.auth a ≡ false
      → SameView w (world_of (on_new e w conn now no_faults pending)) a
  unfolding same_session
  on_new-other e w conn now pending other =
      let w' = (close_existing w conn.auth now no_faults).0 in
      let closed = close_existing-other a conn.auth other w now in
      let o = previous_row e w'.rows conn.auth now true in
      elim (Option-cases (meet_previous w'.here conn.auth o)) [
        | inl nothing ↦ rw (on_new-panics e w conn now pending nothing) closed
        | inr ((c, signals), s) ↦
            let (after, effects, accepts, admitted, hub, signal) =
              IsAdmitted-via e w conn now no_faults pending c signals refl s in
            let kept =
              subst (KeepsOther a conn.auth other w'.here) s
                (meet_previous-KeepsOther a conn.auth other w'.here o) in
            rw accepts (
              admitted.others_kept a.user_id a.instance_id other,
              admitted.found_here a ∙ rw other refl,
              ap (λ h. get2 a.user_id a.instance_id h.registry) hub ∙ kept ∙ closed.2,
              admitted.id_kept,
            )
      ]

  beats-other :
      (w : World) (b : Auth) (now : ℕ)
      → same_session b a ≡ false
      → get2 a.user_id a.instance_id (update_heart_beat w.rows b.user_id b.instance_id now)
        ≡ get2 a.user_id a.instance_id w.rows
  unfolding update_heart_beat same_session
  beats-other w b now other =
      get2-update w.rows b.user_id b.instance_id a.user_id a.instance_id
        (λ row. record row { last_heartbeat = now; ttl = ttl_from now })
      ∙ rw other refl

  on_expired-other :
      (w : World) (t : Timer)
      → same_session (record { user_id = t.user_id; instance_id = t.instance_id }) a ≡ false
      → SameView w (on_expired w t true) a
  unfolding on_expired same_session
  on_expired-other w t other = (
    get2-remove_connection w.rows t.user_id t.instance_id a.user_id a.instance_id ∙ rw other refl,
    refl,
    get2-expire a.user_id a.instance_id w.here.hub t ∙ ground (arith, other),
    refl,
  )

  pub step-other :
      (e : Env) (w : World) (x : Event) → concerns x a ≡ false → SameView w (step e w x) a
  unfolding step concerns
  step-other e w (opens conn now pending) other = on_new-other e w conn now pending other
  step-other e w (leaves b now) other = elim (Option-cases (get_connection w.here.conns b)) [
    | inl nothing ↦ rw (nothing, step) (refl, refl, refl, refl)
    | inr (conn, found) ↦ rw (found, step) (on_close-other a b other w now)
  ]
  step-other e w (beats b now) other = (beats-other w b now other, refl, refl, refl)
  step-other e w (expires u i) other = elim (Option-cases (get2 u i w.here.hub.registry)) [
    | inl nothing ↦ rw (nothing, step) (refl, refl, refl, refl)
    | inr (g, found) ↦
        rw (found, step)
          (on_expired-other w (record { user_id = u; instance_id = i; gen = g }) other)
  ]
