-- ===== src/MsgHub/Registry.antt =====
-- What the registry says of a session, whatever the order of calls and timers.
use go_pkg.Common.{
  ℕ, ◌+◌, ◌≡◌, refl, false, ◌&&◌, Bytes, Option, none, some, List, [], ◌∷◌, if◌then◌else◌, is_some,
  str_eq, str_eq_iff, arith, ap, ◌∙◌,
}
use go_pkg.Common.Table.{get}
use go_pkg.Common.Nested.{get2, get2-put2, get2-del2}
use go_pkg.MsgHub.{
  Timer, Hub, new, register, deregister, is_registered, is_gen, expire, shutdown, HubOp, registers,
  deregisters, expires, shuts_down, step, run,
}

-- The last operation that decides on a session: a registration, by its generation, or none.
pub owner : Bytes → Bytes → Option ℕ → ℕ → List HubOp → Option ℕ
owner u i o seq [] = o
owner u i o seq (registers w j ∷ ops) =
    owner u i (if str_eq w u && str_eq j i then some (seq + 1) else o) (seq + 1) ops
owner u i o seq (deregisters w j ∷ ops) =
    owner u i (if str_eq w u && str_eq j i then none else o) seq ops
owner u i o seq (expires t ∷ ops) =
    owner u i (if str_eq t.user_id u && str_eq t.instance_id i && is_gen o t.gen then none else o)
      seq ops
owner u i o seq (shuts_down ∷ ops) = owner u i none seq ops

get2-nil : (u i : Bytes) → get2 {V = ℕ} u i [] ≡ none
unfolding get2 get
get2-nil u i = refl

gen_seq-expire : (h : Hub) (t : Timer) → (expire h t).gen_seq ≡ h.gen_seq
unfolding expire
gen_seq-expire h t = ground arith

pub get2-expire :
    (u i : Bytes) (h : Hub) (t : Timer)
    → get2 u i ((expire h t).registry) ≡ (
        if str_eq t.user_id u && str_eq t.instance_id i && is_gen (get2 u i h.registry) t.gen
        then none
        else get2 u i h.registry)
unfolding expire
get2-expire u i h t = ground (
  arith,
  get2-del2 t.user_id t.instance_id u i h.registry,
  str_eq_iff t.user_id u,
  str_eq_iff t.instance_id i,
)

owner_lem :
    (u i : Bytes) (h : Hub) (ops : List HubOp)
    → get2 u i ((run h ops).registry) ≡ owner u i (get2 u i h.registry) h.gen_seq ops
unfolding run step owner register deregister shutdown
owner_lem u i h [] = refl
owner_lem u i h (registers w j ∷ ops) =
    rw (owner_lem u i (register h w j) ops, get2-put2 w j u i (h.gen_seq + 1) h.registry) refl
owner_lem u i h (deregisters w j ∷ ops) =
    rw (owner_lem u i (deregister h w j) ops, get2-del2 w j u i h.registry) refl
owner_lem u i h (expires t ∷ ops) =
    rw (owner_lem u i (expire h t) ops, get2-expire u i h t, gen_seq-expire h t) refl
owner_lem u i h (shuts_down ∷ ops) = rw (owner_lem u i (shutdown h) ops, get2-nil u i) refl

-- From a new service, for every sequence of calls and timers: a session is registered, under the
-- generation drawn for it, exactly if its latest registration was neither deregistered, nor
-- expired by a timer of that same generation, nor shut down.
pub registry_by_history :
    (u i : Bytes) (ops : List HubOp)
    → (get2 u i ((run new ops).registry) ≡ owner u i none 0 ops)
      × (is_registered (run new ops) u i ≡ is_some (owner u i none 0 ops))
unfolding is_registered
registry_by_history u i ops =
    let e = owner_lem u i new ops ∙ ap (λ o. owner u i o 0 ops) (get2-nil u i) in (e, ap is_some e)

-- A timer that fires when the registry no longer holds its registration, since the session has
-- reconnected or registered again, leaves the registry as it was, and `onExpired` runs all the
-- same.
pub late_timer_expires :
    (h : Hub) (t : Timer)
    → is_gen (get2 t.user_id t.instance_id h.registry) t.gen ≡ false
    → ((expire h t).registry ≡ h.registry) × ((expire h t).expired ≡ t ∷ h.expired)
unfolding expire
late_timer_expires h t stale = (rw stale refl, rw stale refl)
