-- ===== src/RateLimit/Sessions.antt =====
-- A user's limiter lives exactly as long as the user has sessions.
use go_pkg.Common.{
  ◌≡◌, refl, ◌↔◌, Bool, true, false, Bytes, Option, none, some, is_some, List, [], ◌∷◌,
  if◌then◌else◌, str_eq, str_eq_iff, str_eq_refl, Option-cases, inl, inr, arith,
}
use go_pkg.Common.Table.{
  Table, get, put, del, no_entries, get-put, get-put_self, get-del, get-nil, no_entries-put,
  get-no_entries,
}
use go_pkg.Common.Nested.{get2, put2, inner}
use go_pkg.Domain.{Auth, is_anonymous}
use go_pkg.RateLimit.{
  Present, present, Env, Limiter, RateLimiter, empty, new_anonymous, user_limiter_of, add_session,
  new, drop_session, remove, lookup, get_limiter, LimiterOp, news, gets, removes, step, run,
}

-- A user has a limiter if and only if the user has an entry of sessions, which is not empty.
abbrev pub entry_ok : Option Limiter → Option (Table Present) → Bool
entry_ok none none = true
entry_ok none (some sessions) = false
entry_ok (some lim) none = false
entry_ok (some lim) (some sessions) = if no_entries sessions then false else true

abbrev pub IsConsistent : RateLimiter → Type 0
IsConsistent r = (u : Bytes) → entry_ok (get u r.user_limiter) (get u r.user_sessions) ≡ true

new-IsConsistent :
    (c : Env) (r : RateLimiter) (a : Auth) → IsConsistent r → IsConsistent ((new c r a).1)
unfolding new new_anonymous user_limiter_of add_session put2
new-IsConsistent c r a ok u = ground (
  arith,
  ok u,
  str_eq_iff a.user_id u,
  get-put u a.user_id (put a.instance_id present (inner a.user_id r.user_sessions)) r.user_sessions,
  get-put u a.user_id (record { handle = r.allocated; rate = c.user_rate; burst = c.user_burst })
      r.user_limiter,
  no_entries-put a.instance_id present (inner a.user_id r.user_sessions),
)

remove-IsConsistent : (r : RateLimiter) (a : Auth) → IsConsistent r → IsConsistent (remove r a)
unfolding remove drop_session
remove-IsConsistent r a ok u =
    let sessions = inner a.user_id r.user_sessions in
    ground (
      arith,
      ok u,
      str_eq_iff a.user_id u,
      get-put u a.user_id (del a.instance_id sessions) r.user_sessions,
      get-del u a.user_id r.user_sessions,
      get-del u a.user_id r.user_limiter,
    )

get_limiter-IsConsistent :
    (c : Env) (r : RateLimiter) (a : Auth) → IsConsistent r → IsConsistent ((get_limiter c r a).1)
unfolding get_limiter
get_limiter-IsConsistent c r a ok u = ground (arith, ok u, new-IsConsistent c r a ok u)

run-IsConsistent :
    (c : Env) (r : RateLimiter) (ops : List LimiterOp) → IsConsistent r → IsConsistent (run c r ops)
unfolding run step
run-IsConsistent c r [] ok = ok
run-IsConsistent c r (news a ∷ ops) ok =
    run-IsConsistent c ((new c r a).1) ops (new-IsConsistent c r a ok)
run-IsConsistent c r (gets a ∷ ops) ok =
    run-IsConsistent c ((get_limiter c r a).1) ops (get_limiter-IsConsistent c r a ok)
run-IsConsistent c r (removes a ∷ ops) ok =
    run-IsConsistent c (remove r a) ops (remove-IsConsistent r a ok)

some_session :
    (sessions : Table Present)
    → no_entries sessions ≡ false
    → (i : Bytes) × (get i sessions ≡ some present)
unfolding get
some_session [] h = cc
some_session ((i, present) ∷ sessions) h = (i, rw (str_eq_refl i))

-- After any calls of `New`, `Get` and `Remove`, in any order and also with none to match, a user
-- has a limiter if and only if the user has a session: no limiter outlives the last session, and
-- none goes before it.
pub limiter_iff_session :
    (c : Env) (ops : List LimiterOp) (u : Bytes)
    → let r = run c empty ops in
      (is_some (get u r.user_limiter) ≡ true)
      ↔ ((i : Bytes) × (get2 u i r.user_sessions ≡ some present))
unfolding get2
limiter_iff_session c ops u =
    let r = run c empty ops in
    let ok =
      run-IsConsistent c empty ops
        (λ v. rw (get-nil {V = Limiter} v, get-nil {V = Table Present} v) refl) u in
    (
      λ h. elim (Option-cases (get u r.user_sessions)) [
        | inl e ↦ absurd (ground (arith, ok, e))
        | inr (sessions, e) ↦
            let (i, at_i) = some_session sessions (ground (arith, ok, e)) in (i, rw (e, get2) at_i)
      ],
      λ h. ground (arith, ok, h.1),
    )

-- The limiter that `New` gives for a session is the one that `Get` gives next for any session of
-- the same user, and for an anonymous session if it is the same session.
pub sessions_share_limiter :
    (c : Env) (r : RateLimiter) (a b : Auth)
    → a.user_id ≡ b.user_id
    → ((is_anonymous a ≡ true) → a.instance_id ≡ b.instance_id)
    → (get_limiter c ((new c r a).1) b).0 ≡ (new c r a).0
unfolding get_limiter lookup new new_anonymous user_limiter_of add_session is_anonymous
sessions_share_limiter c r a b same_user same_instance = ground (
  arith,
  same_user,
  same_instance,
  get-put_self a.instance_id
      (record { handle = r.allocated; rate = c.anonymous_rate; burst = c.anonymous_burst })
      r.anonymous_limiter,
  get-put_self a.user_id (record { handle = r.allocated; rate = c.user_rate; burst = c.user_burst })
      r.user_limiter,
)

-- For two sessions of one named user of which the second is registered, `Remove` of the first
-- leaves the second the limiter that it had.
pub limiter_survives :
    (r : RateLimiter) (a b : Auth)
    → is_anonymous b ≡ false
    → a.user_id ≡ b.user_id
    → str_eq a.instance_id b.instance_id ≡ false
    → get2 b.user_id b.instance_id r.user_sessions ≡ some present
    → lookup (remove r a) b ≡ lookup r b
unfolding remove drop_session lookup is_anonymous get2
limiter_survives r a b named same_user other h =
    let sessions = inner a.user_id r.user_sessions in
    ground (
      arith,
      named,
      same_user,
      other,
      h,
      get-del b.instance_id a.instance_id sessions,
      get-no_entries b.instance_id (del a.instance_id sessions),
    )
