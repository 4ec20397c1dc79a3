-- ===== src/Webhook/SyncCall/Retry.antt =====
-- How often `Call` posts, and what its result says of the backend's answers.
use go_pkg.Common.{
  ℕ, zero, suc, ◌+◌, ◌≤◌, ◌≡◌, ◌≢◌, refl, ◌⊎◌, inl, inr, Bool, true, false, Option, none, some,
  if◌then◌else◌, ltb, max, [], Bytes, arith,
}
use go_pkg.Webhook.Breaker.{CircuitBreaker, allow, record_result, record_all}
use go_pkg.Webhook.SyncCall.{
  PostResult, transport_error, response, CallErr, transport, call_error, Attempt, SyncCaller,
  new_sync_caller, is_2xx, Verdict, returns, retries_with, judge, is_success, call_loop, call,
}

Verdict-cases :
    (v : Verdict)
    → ((error : Option CallErr) × (v ≡ returns error)) ⊎ ((err : CallErr) × (v ≡ retries_with err))
Verdict-cases (returns error) = inl (error, refl)
Verdict-cases (retries_with err) = inr (err, refl)

-- The breaker and the retry counter with which the next round starts.
abbrev next_breaker : Attempt → CircuitBreaker → CircuitBreaker
next_breaker e b =
    record_result (record_all (record_all b e.meanwhile) e.during) (is_success e.post) e.later

abbrev next_retries : ℕ → ℕ → ℕ
next_retries attempt retries = if ltb 0 attempt then retries + 1 else retries

answered :
    (p : PostResult) (has_out decodes : Bool) (err : CallErr)
    → is_success p ≡ true
    → judge p has_out decodes ≢ retries_with err
unfolding is_success judge
answered transport_error has_out decodes err s e = cc
answered (response status body) has_out decodes err s e = ground arith

-- The round at `k` got a 2xx answer.
abbrev pub GotTwoHundred : Attempt → Type 0
GotTwoHundred e =
    (status : ℕ) × (body : Bytes) × (e.post ≡ response status body) × (is_2xx status ≡ true)

accepted :
    (p : PostResult) (has_out decodes : Bool)
    → judge p has_out decodes ≡ returns none
    → (status : ℕ) × (body : Bytes) × (p ≡ response status body) × (is_2xx status ≡ true)
unfolding judge
accepted transport_error has_out decodes e = absurd (ground arith)
accepted (response status body) has_out decodes e = (status, body, refl, ground arith)

module _ (env : ℕ → Attempt) (has_out : Bool) where
  verdict : ℕ → Verdict
  verdict k = judge (env k).post has_out (env k).decodes

  bounds :
      (rounds attempt : ℕ) (last_err : Option CallErr) (b : CircuitBreaker) (posts retries : ℕ)
      → let r = call_loop rounds env has_out attempt last_err b posts retries in
        (posts ≤ r.posts) × (r.posts ≤ posts + rounds) × (r.retries ≤ retries + rounds)
  unfolding call_loop
  bounds zero attempt last_err b posts retries = omega arith
  bounds (suc rounds) attempt last_err b posts retries =
      elim (Verdict-cases (judge (env attempt).post has_out (env attempt).decodes)) [
        | inl (error, e) ↦ ground arith
        | inr (err, e) ↦ ground (
          arith,
          bounds rounds (attempt + 1) (some err) (next_breaker (env attempt) b) (posts + 1)
              (next_retries attempt retries),
        )
      ]

  -- A definite answer, below 500, ends the loop in its round.
  stops_at :
      (k rounds attempt : ℕ) (last_err : Option CallErr) (b : CircuitBreaker) (retries : ℕ)
      → attempt ≤ k
      → is_success (env k).post ≡ true
      → (call_loop rounds env has_out attempt last_err b attempt retries).posts ≤ k + 1
  unfolding call_loop
  stops_at k zero attempt last_err b retries h s = omega arith
  stops_at k (suc rounds) attempt last_err b retries h s =
      elim (Verdict-cases (judge (env attempt).post has_out (env attempt).decodes)) [
        | inl (error, e) ↦ ground arith
        | inr (err, e) ↦ ground (
          arith,
          answered (env k).post has_out (env k).decodes err s,
          stops_at k rounds (attempt + 1) (some err) (next_breaker (env attempt) b)
              (next_retries attempt retries),
        )
      ]

  -- With an error at hand, only a 2xx answer makes the result a success.
  success_later :
      (rounds attempt : ℕ) (err : CallErr) (b : CircuitBreaker) (retries : ℕ)
      → let r = call_loop rounds env has_out attempt (some err) b attempt retries in
        r.error ≡ none → (k : ℕ) × (r.posts ≡ k + 1) × GotTwoHundred (env k)
  unfolding call_loop
  success_later zero attempt err b retries h = cc
  success_later (suc rounds) attempt err b retries h =
      elim (Verdict-cases (judge (env attempt).post has_out (env attempt).decodes)) [
        | inl (error, e) ↦ (
          attempt,
          ground arith,
          accepted (env attempt).post has_out (env attempt).decodes (ground arith),
        )
        | inr (err', e) ↦
            let (k, p, g) =
              success_later rounds (attempt + 1) err' (next_breaker (env attempt) b)
                (next_retries attempt retries) (ground arith) in
            (k, ground arith, g)
      ]

  -- The first round has no error to give up with.
  success_first :
      (rounds : ℕ) (b : CircuitBreaker)
      → let r = call_loop (suc rounds) env has_out 0 none b 0 0 in
        r.error ≡ none → (k : ℕ) × (r.posts ≡ k + 1) × GotTwoHundred (env k)
  unfolding call_loop
  success_first rounds b h = elim (Verdict-cases (judge (env 0).post has_out (env 0).decodes)) [
    | inl (error, e) ↦
        (0, ground arith, accepted (env 0).post has_out (env 0).decodes (ground arith))
    | inr (err, e) ↦
        let (k, p, g) = success_later rounds 1 err (next_breaker (env 0) b) 0 (ground arith) in
        (k, ground arith, g)
  ]

-- Every round's context is alive, nobody else uses the breaker, and the backend fails.
pub record IsDown (e : Attempt) : Type 0 where
  pub alive : e.ctx_done ≡ false
  pub alone : (e.meanwhile ≡ []) × (e.during ≡ [])
  pub fails : is_success e.post ≡ false

fails-retries :
    (p : PostResult) (has_out decodes : Bool)
    → is_success p ≡ false
    → (err : CallErr) × (judge p has_out decodes ≡ retries_with err)
unfolding is_success judge
fails-retries transport_error has_out decodes s = (transport, refl)
fails-retries (response status body) has_out decodes s = (call_error status body, ground arith)

next_breaker_down :
    (e : Attempt) (b : CircuitBreaker)
    → IsDown e
    → let c = next_breaker e b in (c.failures ≡ b.failures + 1) × (c.threshold ≡ b.threshold)
unfolding record_all record_result
next_breaker_down e b d = ground arith

module _ (env : ℕ → Attempt) (has_out : Bool) (down : (k : ℕ) → IsDown (env k)) where
  keeps_trying :
      (rounds attempt : ℕ) (last_err : Option CallErr) (b : CircuitBreaker) (posts retries : ℕ)
      → b.failures + rounds ≤ b.threshold
      → let r = call_loop rounds env has_out attempt last_err b posts retries in
        (r.posts ≡ posts + rounds) × (r.breaker.failures ≡ b.failures + rounds)
  unfolding call_loop allow record_all
  keeps_trying zero attempt last_err b posts retries room = omega arith
  keeps_trying (suc rounds) attempt last_err b posts retries room =
      let e = env attempt in
      let (err, v) = fails-retries e.post has_out e.decodes (down attempt).fails in
      ground (
        arith,
        v,
        (down attempt).alive,
        (down attempt).alone,
        next_breaker_down e b (down attempt),
        keeps_trying rounds (attempt + 1) (some err) (next_breaker e b) (posts + 1)
            (next_retries attempt retries),
      )

-- `Call` posts at most `retryMax` times, and at most once where that is less than 1.
pub posts_bounded :
    (b : CircuitBreaker) (retry_max : ℕ) (env : ℕ → Attempt) (has_out : Bool)
    → (call (new_sync_caller b retry_max) env has_out).posts ≤ max retry_max 1
unfolding call new_sync_caller
posts_bounded b retry_max env has_out =
    ground (arith, bounds env has_out 1 0 none b 0 0, bounds env has_out retry_max 0 none b 0 0)

-- If round k were answered below 500, as with a 4xx, `Call` posts at most up to that round: it
-- does not retry after it.
pub definite_not_retried :
    (c : SyncCaller) (env : ℕ → Attempt) (has_out : Bool) (k : ℕ)
    → is_success (env k).post ≡ true
    → (call c env has_out).posts ≤ k + 1
unfolding call
definite_not_retried c env has_out k s =
    stops_at env has_out k c.retry_max 0 none c.breaker 0 (omega arith) s

-- A call that returns no error got a 2xx answer to the last of its posts, of which there is one at
-- least.
pub success_needs_2xx :
    (b : CircuitBreaker) (retry_max : ℕ) (env : ℕ → Attempt) (has_out : Bool)
    → let r = call (new_sync_caller b retry_max) env has_out in
      r.error ≡ none → (k : ℕ) × (r.posts ≡ k + 1) × GotTwoHundred (env k)
unfolding call new_sync_caller
success_needs_2xx b zero env has_out h = success_first env has_out 0 b h
success_needs_2xx b (suc n) env has_out h =
    let at_least_one : (if ltb (suc n) 1 then 1 else suc n) ≡ suc n = ground arith in
    rw at_least_one (success_first env has_out n b (rw at_least_one at h))

-- While every post fails or is answered with 500 or more, the context lives, no other caller
-- records and the breaker has room for the failures, `Call` posts in each of its rounds, and each
-- is counted as a failure.
pub down_uses_all_rounds :
    (c : SyncCaller) (env : ℕ → Attempt) (has_out : Bool)
    → ((k : ℕ) → IsDown (env k))
    → c.breaker.failures + c.retry_max ≤ c.breaker.threshold
    → let r = call c env has_out in
      (r.posts ≡ c.retry_max) × (r.breaker.failures ≡ c.breaker.failures + c.retry_max)
unfolding call
down_uses_all_rounds c env has_out down room =
    ground (arith, keeps_trying env has_out down c.retry_max 0 none c.breaker 0 0 room)
