-- ===== src/Examples/Callbacks.antt =====
-- The callbacks to the backend.
use go_pkg.Common.{
  ℕ, zero, suc, ◌+◌, ◌≤◌, ◌<◌, ◌≡◌, ◌↔◌, ◌⊎◌, true, false, bytes, none, some, List, [], ◌∷◌,
}
use go_pkg.Webhook.Breaker
use go_pkg.Webhook.Breaker.{
  CircuitBreaker, History, allow, open_since, record_all, streak, allow_by_history, success_closes,
  open_since_latest,
}
use go_pkg.Webhook.SyncCall.{Attempt, PostResult, transport_error, response}
use go_pkg.Webhook.Async
use go_pkg.Webhook.Async.{
  AsyncDispatcher, DispatchEvent, emits, works, fires, closes, new_async_dispatcher,
}
use go_pkg.Webhook.Async.Books.{IsBounded, total}
use go_pkg.Webhook.Async.Conservation.{emitted, run_accounts}
use go_pkg.Webhook.Health.{Answer, new_health_monitor, is_healthy, at_least_one, run_pings}
use go_pkg.Webhook.Health.Alarms.{fails_in_row, unhealthy_after_failures}

abbrev bad_day : History
bad_day = (false, 20) ∷ (true, 10) ∷ []

allow_by_history_example :
    let b = record_all (Breaker.new 2 30) ((false, 40) ∷ bad_day) in
    (allow b 60 ≡ true) ↔ ((streak ((false, 40) ∷ bad_day) < 2) ⊎ (40 + 30 ≤ 60))
allow_by_history_example = allow_by_history 2 30 40 60 bad_day

abbrev round : PostResult → Attempt
round post = record {
  ctx_done = false;
  meanwhile = [];
  now = 0;
  post = post;
  during = [];
  later = 1;
  decodes = true;
}

-- The first post fails, the second is answered.
abbrev recovers : ℕ → Attempt
recovers zero = round transport_error
recovers (suc k) = round (response 200 [])

abbrev down : ℕ → Attempt
down k = round transport_error

abbrev events : List DispatchEvent
events =
    emits (bytes "inspect") (bytes "cb1") [] ∷ works false ∷ closes ∷ fires 0 true ∷ works true ∷ []

run_accounts_example :
    (d : AsyncDispatcher) × (Async.run (new_async_dispatcher 3 []) events ≡ some d)
    × IsBounded d
    × (total d ≡ emitted events)
    × (d.retry_max ≡ 3)
run_accounts_example = run_accounts 3 [] events

abbrev pings : List Answer
pings = some 200 ∷ none ∷ some 503 ∷ []

unhealthy_after_failures_example :
    let m = (run_pings 2 (0, new_health_monitor) pings).1 in
    ((is_healthy m ≡ false) ↔ (at_least_one 2 ≤ fails_in_row 0 pings)) × (m.calls ≤ 1)
unhealthy_after_failures_example = unhealthy_after_failures 2 pings
