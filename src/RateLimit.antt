-- ===== src/RateLimit.antt =====
-- core/service/websocket/rate-limiter/rate_limiter.go. `rate.NewLimiter` is outside the repository:
-- a limiter is its identity, its rate and its burst. Each method runs under the mutex. `Get` looks up
-- and calls `New` under two locks; as `New` looks up again, what comes in between is a call before.
pub mod Sessions
use go_pkg.Common.{ℕ, ◌+◌, Bool, Bytes, Option, none, some, List, [], ◌∷◌, if◌then◌else◌}
use go_pkg.Common.Table.{Table, get, put, del, no_entries}
use go_pkg.Common.Nested.{put2, inner}
use go_pkg.Domain.{Auth, is_anonymous}

pub record Env : Type 0 where
  pub user_rate : ℕ
  pub user_burst : ℕ
  pub anonymous_rate : ℕ
  pub anonymous_burst : ℕ

pub record Limiter : Type 0 where
  pub handle : ℕ
  pub rate : ℕ
  pub burst : ℕ

-- The value `struct{}{}`.
pub data Present : Type 0 where
  present : Present

pub record RateLimiter : Type 0 where
  pub user_limiter : Table Limiter
  pub user_sessions : Table (Table Present)
  pub anonymous_limiter : Table Limiter
  pub allocated : ℕ

abbrev pub empty : RateLimiter
empty = record { user_limiter = []; user_sessions = []; anonymous_limiter = []; allocated = 0 }

unfoldable pub new_anonymous : Env → RateLimiter → Auth → Limiter × RateLimiter
new_anonymous c r auth = elim (get auth.instance_id r.anonymous_limiter) [
  | some lim ↦ (lim, r)
  | none ↦
      let lim : Limiter = record {
        handle = r.allocated;
        rate = c.anonymous_rate;
        burst = c.anonymous_burst;
      } in
      (
        lim,
        record r {
          anonymous_limiter = put auth.instance_id lim r.anonymous_limiter;
          allocated = r.allocated + 1;
        },
      )
]

unfoldable pub user_limiter_of : Env → RateLimiter → Bytes → Limiter × RateLimiter
user_limiter_of c r user_id = elim (get user_id r.user_limiter) [
  | some lim ↦ (lim, r)
  | none ↦
      let lim : Limiter = record {
        handle = r.allocated;
        rate = c.user_rate;
        burst = c.user_burst;
      } in
      (lim, record r { user_limiter = put user_id lim r.user_limiter; allocated = r.allocated + 1 })
]

unfoldable pub add_session : RateLimiter → Auth → RateLimiter
add_session r auth = record r {
  user_sessions = put2 auth.user_id auth.instance_id present r.user_sessions;
}

unfoldable pub new : Env → RateLimiter → Auth → Limiter × RateLimiter
unfolding new_anonymous user_limiter_of add_session
new c r auth =
    if is_anonymous auth
    then new_anonymous c r auth
    else (let (lim, r') = user_limiter_of c r auth.user_id in (lim, add_session r' auth))

-- `delete(sessions, ...)`, and both of the user's entries where it was the last session.
unfoldable pub drop_session : RateLimiter → Auth → Table Present → RateLimiter
drop_session r auth sessions =
    let rest = del auth.instance_id sessions in
    if no_entries rest
    then record r {
      user_limiter = del auth.user_id r.user_limiter;
      user_sessions = del auth.user_id r.user_sessions;
    }
    else record r { user_sessions = put auth.user_id rest r.user_sessions }

unfoldable pub remove : RateLimiter → Auth → RateLimiter
unfolding drop_session
remove r auth =
    if is_anonymous auth
    then record r { anonymous_limiter = del auth.instance_id r.anonymous_limiter }
    else elim (get auth.user_id r.user_sessions) [
      | none ↦ r
      | some sessions ↦ drop_session r auth sessions
    ]

unfoldable pub lookup : RateLimiter → Auth → Option Limiter
lookup r auth =
    if is_anonymous auth
    then get auth.instance_id r.anonymous_limiter
    else get auth.user_id r.user_limiter

unfoldable pub get_limiter : Env → RateLimiter → Auth → Limiter × RateLimiter
get_limiter c r auth = elim (lookup r auth) [ some lim ↦ (lim, r) | none ↦ new c r auth ]

pub data LimiterOp : Type 0 where
  news : Auth → LimiterOp
  gets : Auth → LimiterOp
  removes : Auth → LimiterOp

unfoldable pub step : Env → RateLimiter → LimiterOp → RateLimiter
step c r (news auth) = (new c r auth).1
step c r (gets auth) = (get_limiter c r auth).1
step c r (removes auth) = remove r auth

unfoldable pub run : Env → RateLimiter → List LimiterOp → RateLimiter
run c r [] = r
run c r (op ∷ ops) = run c (step c r op) ops
