-- ===== src/Ai/Retry/Rule.antt =====
-- A rule for what holds of the world throughout a call.
use evo_bot_runtime.Prelude.{ℕ, zero, suc, ◌+◌, [], inl, inr, Bool-cases, Result-cases}
use evo_bot_runtime.Errors.{Err}
use evo_bot_runtime.Ai.Retry.{
  Adapter, do_once, Network, backoff_delay, before_attempt, retry_loop, call,
}

-- A property of the world that its three operations keep, for delays of any length.
pub record Keeps (n : Network) (P : n.World → Type 0) : Type 0 where
  pub exchange : (w : n.World) → P w → P (n.exchange w).0
  pub random : (k : ℕ) (w : n.World) → P w → P (n.random k w).0
  pub wait : (d : ℕ) (w : n.World) → P w → P (n.wait d w).0

module _ (n : Network) (P : n.World → Type 0) (k : Keeps n P) where
  before_attempt-Keeps : (base a : ℕ) (w : n.World) → P w → P (before_attempt n base a w).0
  unfolding before_attempt backoff_delay
  before_attempt-Keeps base zero w h = h
  before_attempt-Keeps base (suc a) w h =
      let delay = backoff_delay n base (suc a) w in k.wait delay.1 delay.0 (k.random _ w h)

  retry_loop-Keeps :
      (base left attempt : ℕ) (last : Err) (w : n.World)
      → P w
      → P (retry_loop n base left attempt last w).0
  unfolding retry_loop
  retry_loop-Keeps base zero attempt last w h = h
  retry_loop-Keeps base (suc left) attempt last w h =
      let waited = before_attempt n base attempt w in
      let reply = n.exchange waited.0 in
      let outcome = do_once reply.1 in
      let b = before_attempt-Keeps base attempt w h in
      let x = k.exchange waited.0 b in
      elim (Bool-cases waited.1) [
        | inl stop ↦ rw stop b
        | inr go ↦ elim (Result-cases outcome.result) [
          | inl (text, e) ↦ rw (go, e) x
          | inr (y, e) ↦ elim (Bool-cases outcome.retryable) [
            | inl again ↦ rw (go, e, again) (retry_loop-Keeps base left (attempt + 1) y reply.0 x)
            | inr final ↦ rw (go, e, final) x
          ]
        ]
      ]

  pub call-Keeps : (a : Adapter) (w : n.World) → P w → P (call n a w).0
  unfolding call
  call-Keeps a w h = retry_loop-Keeps a.retry_base_delay (suc a.max_retries) 0 (Err.foreign []) w h
