-- ===== src/Lifecycle/Sessions/Steps.antt =====
-- Each event of a session takes it to the phase that is due.
use go_pkg.Common.{
  ℕ, true, false, ◌≡◌, refl, sym, ap, subst, ◌∙◌, str_eq_iff, str_eq_refl, if◌then◌else◌,
  Bool-cases, Option-cases, inl, inr, arith,
}
use go_pkg.Common.Nested.{get2}
use go_pkg.Domain.{Auth, is_anonymous, same_session}
use go_pkg.Connections.{get_connection}
use go_pkg.MsgHub.Registry.{get2-expire}
use go_pkg.ActiveConns.{Row, update_heart_beat, ttl_from}
use go_pkg.ActiveConns.Rows.{map_row, get2-update}
use go_pkg.Lifecycle.{Env, World, on_expired}
use go_pkg.Lifecycle.Moves.{row_expired, timer_of}
use go_pkg.Lifecycle.Sessions.{
  Event, opens, leaves, beats, expires, step, Phase, absent, live, away, left_behind, timed_out,
  concerns, phase_after, Agrees,
}
use go_pkg.Lifecycle.Sessions.Others.{Agrees-SameView, step-other}
use go_pkg.Lifecycle.Sessions.Opening.{IsUp, Fresh, left_live, opened_live}

module _ (a : Auth) where
  same_session→eq : (b : Auth) → same_session b a ≡ true → b ≡ a
  unfolding same_session
  same_session→eq b h =
      ground (arith, str_eq_iff b.user_id a.user_id, str_eq_iff b.instance_id a.instance_id)

  abbrev beaten : ℕ → Row → Row
  beaten now row = record row { last_heartbeat = now; ttl = ttl_from now }

  row-beat :
      (w : World) (now : ℕ)
      → get2 a.user_id a.instance_id (update_heart_beat w.rows a.user_id a.instance_id now)
        ≡ map_row (beaten now) (get2 a.user_id a.instance_id w.rows)
  unfolding update_heart_beat
  row-beat w now =
      get2-update w.rows a.user_id a.instance_id a.user_id a.instance_id (beaten now)
      ∙ rw (str_eq_refl a.user_id, str_eq_refl a.instance_id) refl

  beat :
      (w : World) (now : ℕ) (p : Phase)
      → Agrees w a p
      → Agrees (record w { rows = update_heart_beat w.rows a.user_id a.instance_id now }) a p
  beat w now absent (none_left, c, r) = (row-beat w now ∙ ap (map_row (beaten now)) none_left, c, r)
  beat w now live ((row, at, st, held), c, r) =
      ((beaten now row, row-beat w now ∙ ap (map_row (beaten now)) at, st, held), c, r)
  beat w now away ((row, at, st, held), c, r) =
      ((beaten now row, row-beat w now ∙ ap (map_row (beaten now)) at, st, held), c, r)

  expired :
      (e : Env) (w : World) (p : Phase)
      → Agrees w a p
      → Agrees (step e w (expires a.user_id a.instance_id)) a (timed_out p)
  unfolding step on_expired
  expired e w absent h = rw (h.2, step) h
  expired e w live h = rw (h.2, step) h
  expired e w away h = elim (Option-cases (get2 a.user_id a.instance_id w.here.hub.registry)) [
    | inl nothing ↦ absurd (ground (arith, h.2))
    | inr (g, found) ↦
        rw (found, step)
          (
            row_expired w a g,
            h.1,
            get2-expire a.user_id a.instance_id w.here.hub (timer_of a g)
                ∙ ground (arith, found, str_eq_refl a.user_id, str_eq_refl a.instance_id),
          )
  ]

  left :
      (e : Env) (w : World) (now : ℕ) (p : Phase)
      → is_anonymous a ≡ false
      → IsUp w
      → Agrees w a p
      → Agrees (step e w (leaves a now)) a (left_behind p)
  unfolding step
  left e w now absent named up h = rw (h.1, step) h
  left e w now away named up h = rw (h.1, step) h
  left e w now live named up h = elim (Option-cases (get_connection w.here.conns a)) [
    | inl nothing ↦ absurd (ground (arith, h.1))
    | inr (conn, found) ↦ rw (found, step) (left_live a named w now up h)
  ]

-- The condition of `Timely` on one event.
abbrev pub InTime : Env → World → Event → Type 0
InTime e w (opens conn now pending) = Fresh e w conn.auth now
InTime e w x = Unit {0}

module _ (a : Auth) (named : is_anonymous a ≡ false) where
  step_own :
      (e : Env) (w : World) (x : Event) (p : Phase)
      → concerns x a ≡ true
      → IsUp w
      → InTime e w x
      → Agrees w a p
      → Agrees (step e w x) a (phase_after p x)
  unfolding concerns step phase_after
  step_own e w (opens conn now pending) p own up fresh h =
      let eq = same_session→eq a conn.auth own in
      subst (λ b. Agrees (step e w (opens conn now pending)) b live) eq
        (opened_live e w conn now pending p (ap is_anonymous eq ∙ named) up
          (subst (λ b. Agrees w b p) (sym eq) h) fresh)
  step_own e w (leaves b now) p own up fresh h =
      subst (λ c. Agrees (step e w (leaves c now)) a (left_behind p))
        (sym (same_session→eq a b own)) (left a e w now p named up h)
  step_own e w (beats b now) p own up fresh h =
      subst (λ c. Agrees (step e w (beats c now)) a p) (sym (same_session→eq a b own))
        (beat a w now p h)
  step_own e w (expires u i) p own up fresh h =
      subst (λ c. Agrees (step e w (expires c.user_id c.instance_id)) a (timed_out p))
        (sym (same_session→eq a (record { user_id = u; instance_id = i }) own)) (expired a e w p h)

  pub step-Agrees :
      (e : Env) (w : World) (x : Event) (p : Phase)
      → IsUp w
      → InTime e w x
      → Agrees w a p
      → Agrees (step e w x) a (if concerns x a then phase_after p x else p)
  step-Agrees e w x p up fresh h = elim (Bool-cases (concerns x a)) [
    | inl own ↦ rw own (step_own e w x p own up fresh h)
    | inr other ↦ rw other (Agrees-SameView w (step e w x) a p (step-other a e w x other) h)
  ]
