-- ===== src/Ai/Retry.antt =====
-- `NewAIAdapter`, `backoffDelay`, `isRetryableStatus`, `doOnce` and the retry loop of `Call`.
pub mod Laws
pub mod Rule
pub mod Trace
use evo_bot_runtime.Prelude.{
  [], ◌++◌, ℕ, zero, suc, ◌+◌, ◌-◌, ◌*◌, ◌/◌, ◌%◌, ◌^◌, Bool, true, false, ◌||◌, Option, none, some,
  Result, ok, err, ltb, leb, ◌==◌, if◌then◌else◌,
}
use evo_bot_runtime.Prelude.Int.{ℤ, pos, negsuc, pos_part, is_nonpos}
use evo_bot_runtime.Prelude.Text.{Text, codes}
use evo_bot_runtime.Errors.{Err, Sentinel}
use evo_bot_runtime.Keys.{format}
use evo_bot_runtime.Ai.Wire.{A2aResponse}
use evo_bot_runtime.Ai.Response.{extract_response_text}

-- Durations are in nanoseconds, as bit patterns of an int64.
abbrev pub millisecond : ℕ
millisecond = 1_000_000

abbrev pub max_backoff : ℕ
max_backoff = 5_000_000_000

pub record Adapter : Type 0 where
  pub timeout_secs : ℤ
  pub max_retries : ℕ
  pub retry_base_delay : ℕ

unfoldable pub new_ai_adapter : ℤ → ℤ → ℤ → Adapter
new_ai_adapter timeout_secs max_retries retry_base_ms = record {
  timeout_secs = timeout_secs;
  max_retries = pos_part max_retries;
  retry_base_delay =
      (if is_nonpos retry_base_ms then 200 else pos_part retry_base_ms) * millisecond % 2 ^ 64;
}

unfoldable pub is_retryable_status : ℕ → Bool
is_retryable_status code = code == 429 || code == 500 || code == 502 || code == 503 || code == 504

-- The delay before the jitter: `base << (attempt - 1)` in 64 bits, and the cap where that is not positive
-- or is above the cap. A negative int64 is a pattern of 2 ^ 63 or more, which is above the cap.
unfoldable pub capped_delay : ℕ → ℕ → ℕ
capped_delay base attempt =
    let d = base * 2 ^ (attempt - 1) % 2 ^ 64 in
    if d == 0 || ltb max_backoff d then max_backoff else d

-- What one POST to the AI Processor comes to.
pub data Exchange : Type 0 where
  -- the request cannot be built
  unsendable : Err → Exchange
  -- `client.Do` fails; whether the outer context is done, and whether the attempt's deadline passed
  failed : Bool → Bool → Err → Exchange
  -- a status, and what decoding at most 1 MiB of the body comes to
  replied : ℕ → Result Err A2aResponse → Exchange

pub record Attempt : Type 0 where
  pub result : Result Err Text
  pub retryable : Bool

abbrev decoded : Result Err A2aResponse → Attempt
decoded (ok resp) = record { result = ok (extract_response_text resp); retryable = false }
decoded (err e) = record {
  result = err (Err.wrapped (codes "pipeline.ai.decode") e);
  retryable = false;
}

-- `doOnce`
unfoldable pub do_once : Exchange → Attempt
unfolding is_retryable_status
do_once (unsendable e) = record {
  result = err (Err.wrapped (codes "pipeline.ai.new_request") e);
  retryable = false;
}
do_once (failed true deadline e) = record {
  result = err (Err.sentinel Sentinel.pipeline_cancelled);
  retryable = false;
}
do_once (failed false true e) = record {
  result = err (Err.sentinel Sentinel.ai_timeout);
  retryable = false;
}
do_once (failed false false e) = record {
  result = err (Err.wrapped (codes "pipeline.ai.http") e);
  retryable = true;
}
do_once (replied code body) = if code == 200 then decoded body else record {
  result = err (Err.foreign (codes "pipeline.ai.status: unexpected " ++ format (pos code)));
  retryable = is_retryable_status code;
}

-- The world of the adapter, a parameter: the POST of the request body, math/rand's Int63n, and a wait
-- of nanoseconds that says whether the context was done before its end.
pub record Network : Type 1 where
  pub World : Type 0
  pub exchange : World → World × Exchange
  pub random : ℕ → World → World × ℕ
  pub wait : ℕ → World → World × Bool

module _ (n : Network) where
  -- `backoffDelay`
  unfoldable pub backoff_delay : ℕ → ℕ → n.World → n.World × ℕ
  unfolding capped_delay
  backoff_delay base attempt w =
      let d = capped_delay base attempt in
      ((n.random (d / 2 + 1) w).0, d / 2 + (n.random (d / 2 + 1) w).1)

  -- the wait ahead of a retry, and whether the context was done
  unfoldable pub before_attempt : ℕ → ℕ → n.World → n.World × Bool
  unfolding backoff_delay
  before_attempt base zero w = (w, false)
  before_attempt base (suc a) w = let delay = backoff_delay base (suc a) w in n.wait delay.1 delay.0

  -- the loop of `Call`, with the attempts left and the last error
  unfoldable pub retry_loop : ℕ → ℕ → ℕ → Err → n.World → n.World × Result Err Text
  unfolding before_attempt
  retry_loop base zero attempt last w = (w, err last)
  retry_loop base (suc left) attempt last w =
      let waited = before_attempt base attempt w in
      let reply = n.exchange waited.0 in
      let outcome = do_once reply.1 in
      let again = λ (e : Err). retry_loop base left (attempt + 1) e reply.0 in
      if waited.1
      then (waited.0, err (Err.sentinel Sentinel.pipeline_cancelled))
      else elim outcome.result [
        | ok text ↦ (reply.0, ok text)
        | err e ↦ if outcome.retryable then again e else (reply.0, err e)
      ]

  -- `Call`, from the marshalled body on, for fewer than 2 ^ 63 - 1 retries. There `attempts` does not wrap,
  -- the loop makes an attempt, and the first `lastErr`, nil, is never returned. With 2 ^ 63 - 1 retries the
  -- source makes no attempt and returns nil without an error, which is left out.
  unfoldable pub call : Adapter → n.World → n.World × Result Err Text
  unfolding retry_loop
  call a w = retry_loop a.retry_base_delay (suc a.max_retries) 0 (Err.foreign []) w
