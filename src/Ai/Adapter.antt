-- ===== src/Ai/Adapter.antt =====
-- `Call` as a whole: the request, its body, and the attempts to send it; the times that bound them.
pub mod Laws
pub mod Deadline
use evo_bot_runtime.Prelude.{
  ℕ, suc, ◌+◌, ◌*◌, ◌%◌, ◌^◌, ◌&&◌, List, Option, none, some, Result, ok, err, ltb, ◌-◌, Bool,
  if◌then◌else◌,
}
use evo_bot_runtime.Prelude.Int.{ℤ, pos, negsuc}
use evo_bot_runtime.Prelude.Text.{Text, codes}
use evo_bot_runtime.Errors.{Err}
use evo_bot_runtime.Ai.Wire.{A2aRequest, JsonRpcRequest}
use evo_bot_runtime.Ai.Files.{Platform}
use evo_bot_runtime.Ai.Request.{build_request}
use evo_bot_runtime.Ai.Retry.{Adapter, Exchange, Network, call, max_backoff}

-- The transport of a request, a parameter: encoding/json, and net/http's POST of a body to an address
-- with an X-API-Key header, with the random numbers and the waits of `Network`.
pub record Sender : Type 1 where
  pub World : Type 0
  pub marshal : JsonRpcRequest → Result Err (List ℕ)
  pub post : Text → Text → List ℕ → World → World × Exchange
  pub random : ℕ → World → World × ℕ
  pub wait : ℕ → World → World × Bool

-- The attempts of a call all post the same body.
abbrev pub network_of : Sender → A2aRequest → List ℕ → Network
network_of n req body = record {
  World = n.World;
  exchange = n.post req.outgoing_url req.api_key body;
  random = n.random;
  wait = n.wait;
}

abbrev pub second : ℕ
second = 1_000_000_000

-- `time.Duration(a.timeoutSecs) * time.Second`, as the bit pattern of an int64
unfoldable pub per_attempt : ℤ → ℕ
per_attempt (pos n) = n * second % 2 ^ 64
per_attempt (negsuc n) = (2 ^ 64 - suc n * second % 2 ^ 64) % 2 ^ 64

-- `d > 0` on such a pattern
abbrev is_positive_duration : ℕ → Bool
is_positive_duration d = ltb 0 d && ltb d (2 ^ 63)

-- the time limit of all the attempts together; `none` if there is none
unfoldable pub overall_ceiling : Adapter → Option ℕ
unfolding per_attempt
overall_ceiling a =
    let each = per_attempt a.timeout_secs in
    if is_positive_duration each
    then some (((a.max_retries + 2) * each + a.max_retries * max_backoff) % 2 ^ 64)
    else none

abbrev pub max_attachment_download : ℕ
max_attachment_download = 10 * second

-- `attachmentTimeout`
unfoldable pub attachment_timeout : Adapter → ℕ
unfolding per_attempt
attachment_timeout a =
    let t = per_attempt a.timeout_secs in
    if is_positive_duration t && ltb t max_attachment_download then t else max_attachment_download

module _ (f : Platform) (n : Sender) where
  abbrev pub send_body :
      Adapter → A2aRequest → n.World → Result Err (List ℕ) → n.World × Result Err Text
  send_body a req w (err e) = (w, err (Err.wrapped (codes "pipeline.ai.marshal") e))
  send_body a req w (ok body) = call (network_of n req body) a w

  -- `Call`; the text of its answer, in the worlds of the downloads and of the attempts
  unfoldable pub call_ai :
      Text → Adapter → A2aRequest → f.World → n.World → f.World × n.World × Result Err Text
  unfolding build_request call
  call_ai env a req wf wn =
      let built = build_request f env req wf in
      let out = send_body a req wn (n.marshal built.1) in (built.0, out.0, out.1)
