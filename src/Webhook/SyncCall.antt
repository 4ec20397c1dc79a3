-- ===== src/Webhook/SyncCall.antt =====
-- `SyncCaller.Call` of server/webhook/sync.go. What the backend answers, when, whether the context
-- is done and what other callers record on the shared breaker is an `Attempt`, one for each round.
pub mod Retry
use go_pkg.Common.{
  ℕ, zero, suc, ◌+◌, ◌-◌, ◌≤◌, Bool, true, false, ◌&&◌, ◌||◌, not, Option, none, some,
  if◌then◌else◌, ltb, leb, Bytes, is_empty,
}
use go_pkg.Webhook.Breaker.{CircuitBreaker, allow, record_result, History, record_all}

pub data PostResult : Type 0 where
  transport_error : PostResult
  response : ℕ → Bytes → PostResult

-- `lastErr` and the error that `Call` returns.
pub data CallErr : Type 0 where
  circuit_open transport decode : CallErr
  call_error : ℕ → Bytes → CallErr

pub record Attempt : Type 0 where
  pub ctx_done : Bool
  pub meanwhile : History
  pub now : ℕ
  pub post : PostResult
  pub during : History
  pub later : ℕ
  pub decodes : Bool

pub record Outcome : Type 0 where
  pub error : Option CallErr
  pub breaker : CircuitBreaker
  pub posts : ℕ
  pub retries : ℕ

pub record SyncCaller : Type 0 where
  pub breaker : CircuitBreaker
  pub retry_max : ℕ

unfoldable pub new_sync_caller : CircuitBreaker → ℕ → SyncCaller
new_sync_caller breaker retry_max = record {
  breaker = breaker;
  retry_max = if ltb retry_max 1 then 1 else retry_max;
}

abbrev pub is_2xx : ℕ → Bool
is_2xx status = leb 200 status && ltb status 300

-- What a round decides after its `Post`: to return, or to go on with `lastErr`.
pub data Verdict : Type 0 where
  returns : Option CallErr → Verdict
  retries_with : CallErr → Verdict

unfoldable pub judge : PostResult → Bool → Bool → Verdict
judge transport_error has_out decodes = retries_with transport
judge (response status body) has_out decodes =
    if is_2xx status
    then returns (if has_out && not (is_empty body) && not decodes then some decode else none)
    else if ltb status 500
    then returns (some (call_error status body))
    else retries_with (call_error status body)

-- What the round records on the breaker.
unfoldable pub is_success : PostResult → Bool
is_success transport_error = false
is_success (response status body) = ltb status 500

-- The `for` loop with `rounds` left: `attempt` is its counter, and `posts` and `retries` count what
-- was sent and observed.
unfoldable pub call_loop :
    ℕ → (ℕ → Attempt) → Bool → ℕ → Option CallErr → CircuitBreaker → ℕ → ℕ → Outcome
call_loop zero env has_out attempt last_err b posts retries = record {
  error = last_err;
  breaker = b;
  posts = posts;
  retries = retries;
}
call_loop (suc rounds) env has_out attempt last_err b posts retries =
    let e = env attempt in
    let observed = if ltb 0 attempt then retries + 1 else retries in
    let b1 = record_all b e.meanwhile in
    let b2 = record_result (record_all b1 e.during) (is_success e.post) e.later in
    let gave_up : Outcome = record {
      error = last_err;
      breaker = b;
      posts = posts;
      retries = observed;
    } in
    let refused : Outcome = record {
      error = some circuit_open;
      breaker = b1;
      posts = posts;
      retries = observed;
    } in
    if ltb 0 attempt && e.ctx_done
    then gave_up
    else if not (allow b1 e.now)
    then refused
    else elim (judge e.post has_out e.decodes) [
      | returns error ↦ record {
        error = error;
        breaker = b2;
        posts = posts + 1;
        retries = observed;
      }
      | retries_with err ↦
          call_loop rounds env has_out (attempt + 1) (some err) b2 (posts + 1) observed
    ]

unfoldable pub call : SyncCaller → (ℕ → Attempt) → Bool → Outcome
call c env has_out = call_loop c.retry_max env has_out 0 none c.breaker 0 0
