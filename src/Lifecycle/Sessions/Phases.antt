-- ===== src/Lifecycle/Sessions/Phases.antt =====
-- After any events a session is in the phase that its own events lead to.
use go_pkg.Common.{
  ℕ, true, false, ◌≡◌, refl, ap, subst, ◌∙◌, Bytes, is_empty, List, [], ◌∷◌, if◌then◌else◌,
  Option-cases, inl, inr, arith,
}
use go_pkg.Common.Table.{get}
use go_pkg.Common.Nested.{get2}
use go_pkg.Domain.{Auth, is_anonymous, Conn}
use go_pkg.Connections.{get_connection}
use go_pkg.Lifecycle.{
  Env, no_faults, World, on_close, forget, leave, close_existing, previous_row, meet_previous,
  on_expired, on_new, started,
}
use go_pkg.Lifecycle.Admission.{
  id-close_existing, shutting_down-close_existing, meet_previous-KeepsMaps, KeepsMaps,
}
use go_pkg.Lifecycle.Admitted.{IsAdmitted-via}
use go_pkg.Lifecycle.Sessions.{
  Event, opens, leaves, beats, expires, world_of, step, run, Timely, Phase, absent, concerns,
  phase_after, phase, Agrees,
}
use go_pkg.Lifecycle.Sessions.Others.{on_new-panics}
use go_pkg.Lifecycle.Sessions.Opening.{IsUp}
use go_pkg.Lifecycle.Sessions.Steps.{InTime, step-Agrees}

-- No event renames the container or shuts it down.
abbrev SameState : World → World → Type 0
SameState w w' = (w'.here.shutting_down ≡ w.here.shutting_down) × (w'.here.id ≡ w.here.id)

SameState-on_close : (w : World) (b : Auth) (now : ℕ) → SameState w (on_close w b now no_faults).0
unfolding on_close forget leave
SameState-on_close w b now = ground arith

SameState-on_new :
    (e : Env) (w : World) (conn : Conn) (now : ℕ) (pending : List Bytes)
    → SameState w (world_of (on_new e w conn now no_faults pending))
SameState-on_new e w conn now pending =
    let b = conn.auth in
    let w' = (close_existing w b now no_faults).0 in
    let o = previous_row e w'.rows b now true in
    let up = shutting_down-close_existing w b now no_faults in
    elim (Option-cases (meet_previous w'.here b o)) [
      | inl nothing ↦
          rw (on_new-panics e w conn now pending nothing) (up, id-close_existing w b now no_faults)
      | inr ((c, signals), s) ↦
          let (after, effects, accepts, admitted, hub, signal) =
            IsAdmitted-via e w conn now no_faults pending c signals refl s in
          let k = subst (KeepsMaps w'.here) s (meet_previous-KeepsMaps w'.here b o) in
          rw accepts (signal ∙ k.4 ∙ up, admitted.id_kept)
    ]

SameState-step : (e : Env) (w : World) (x : Event) → SameState w (step e w x)
unfolding step on_expired
SameState-step e w (opens conn now pending) = SameState-on_new e w conn now pending
SameState-step e w (leaves b now) = elim (Option-cases (get_connection w.here.conns b)) [
  | inl nothing ↦ rw (nothing, step) (refl, refl)
  | inr (conn, found) ↦ rw (found, step) (SameState-on_close w b now)
]
SameState-step e w (beats b now) = (refl, refl)
SameState-step e w (expires u i) = elim (Option-cases (get2 u i w.here.hub.registry)) [
  | inl nothing ↦ rw (nothing, step) (refl, refl)
  | inr (g, found) ↦ rw (found, step) (refl, refl)
]

IsUp-step : (e : Env) (w : World) (x : Event) → IsUp w → IsUp (step e w x)
IsUp-step e w x up = let s = SameState-step e w x in (s.0 ∙ up.0, ap is_empty s.1 ∙ up.1)

Timely-head :
    (e : Env) (w : World) (x : Event) (xs : List Event) → Timely e w (x ∷ xs) → InTime e w x
Timely-head e w (opens conn now pending) xs t = t.0
Timely-head e w (leaves b now) xs t = tt
Timely-head e w (beats b now) xs t = tt
Timely-head e w (expires u i) xs t = tt

Timely-tail :
    (e : Env) (w : World) (x : Event) (xs : List Event)
    → Timely e w (x ∷ xs)
    → Timely e (step e w x) xs
Timely-tail e w (opens conn now pending) xs t = t.1
Timely-tail e w (leaves b now) xs t = t
Timely-tail e w (beats b now) xs t = t
Timely-tail e w (expires u i) xs t = t

run-Agrees :
    (e : Env) (a : Auth) (w : World) (p : Phase) (xs : List Event)
    → is_anonymous a ≡ false
    → IsUp w
    → Timely e w xs
    → Agrees w a p
    → Agrees (run e w xs) a (phase a p xs)
unfolding run phase
run-Agrees e a w p [] named up t h = h
run-Agrees e a w p (x ∷ xs) named up t h =
    run-Agrees e a (step e w x) (if concerns x a then phase_after p x else p) xs named
      (IsUp-step e w x up) (Timely-tail e w x xs t)
      (step-Agrees a named e w x p up (Timely-head e w x xs t) h)

abbrev pub fresh_world : Bytes → World
fresh_world id = record { here = started id; rows = [] }

-- A container with a name that has the table for itself and starts with nothing, while no statement fails
-- and no session connects again with a stale row: after any events, in any order and of any
-- sessions, map, registry and row of a named session agree with the phase that its own events lead
-- to. It is live after each opening, away once its connection is closed, and absent once the timer
-- of that registration has fired. Where it is live it has a connection, a row that says it is
-- connected here and no registration; where it is away it has no connection, a row that says it is
-- temporarily disconnected and a registration; where it is absent it has none of the three.
pub sessions_follow_phases :
    (e : Env) (id : Bytes) (a : Auth) (xs : List Event)
    → is_empty id ≡ false
    → is_anonymous a ≡ false
    → Timely e (fresh_world id) xs
    → Agrees (run e (fresh_world id) xs) a (phase a absent xs)
unfolding get get2 get_connection
sessions_follow_phases e id a xs named_id named t =
    run-Agrees e a (fresh_world id) absent xs named (refl, named_id) t
      (refl, ground (arith, named), refl)
