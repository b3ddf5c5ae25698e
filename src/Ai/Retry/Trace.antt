-- ===== src/Ai/Retry/Trace.antt =====
-- The attempts of a call, as what came of each, and how they settle the call.
use evo_bot_runtime.Prelude.{
  ℕ, zero, suc, ◌+◌, ◌^◌, ◌<◌, true, List, [], ◌∷◌, ◌++◌, Result, err, ◌≡◌, refl, sym, ap, ◌∙◌, ◌⊎◌,
  inl, inr, Bool-cases, Result-cases, append_assoc,
}
use evo_bot_runtime.Prelude.Text.{Text}
use evo_bot_runtime.Errors.{Err, Sentinel}
use evo_bot_runtime.Ai.Retry.{
  Adapter, Exchange, do_once, Network, backoff_delay, before_attempt, retry_loop, call,
}

-- What came of the posts of a world, the last one last; only a post adds to it.
pub record Record (n : Network) : Type 0 where
  pub log : n.World → List Exchange
  pub exchange_log : (w : n.World) → log (n.exchange w).0 ≡ log w ++ ((n.exchange w).1 ∷ [])
  pub random_log : (k : ℕ) (w : n.World) → log (n.random k w).0 ≡ log w
  pub wait_log : (d : ℕ) (w : n.World) → log (n.wait d w).0 ≡ log w

-- the call was cancelled
abbrev pub cancellation : Result Err Text
cancellation = err (Err.sentinel Sentinel.pipeline_cancelled)

-- A retryable failure, after which there may be another attempt.
abbrev pub IsRetried : Exchange → Type 0
IsRetried x = ((do_once x).retryable ≡ true) × (e : Err) × ((do_once x).result ≡ err e)

-- Every attempt but the last is a retryable failure, and the call returns the result of the last, or was
-- cancelled in the wait behind a retryable failure.
abbrev pub Settles : List Exchange → Result Err Text → Type 0
Settles [] res = ⊥
Settles (x ∷ []) res = (res ≡ (do_once x).result) ⊎ (IsRetried x × (res ≡ cancellation))
Settles (x ∷ y ∷ xs) res = IsRetried x × Settles (y ∷ xs) res

module _ (n : Network) (l : Record n) where
  before_attempt-log : (base a : ℕ) (w : n.World) → l.log (before_attempt n base a w).0 ≡ l.log w
  unfolding before_attempt backoff_delay
  before_attempt-log base zero w = refl
  before_attempt-log base (suc a) w =
      let delay = backoff_delay n base (suc a) w in l.wait_log delay.1 delay.0 ∙ l.random_log _ w

  -- The rest of the loop: no more attempts, or some that settle it.
  abbrev Rest : Err → n.World → n.World × Result Err Text → Type 0
  Rest last w (u, res) =
      ((l.log u ≡ l.log w) × ((res ≡ err last) ⊎ (res ≡ cancellation)))
      ⊎ ((x : Exchange) × (xs : List Exchange) × (l.log u ≡ l.log w ++ (x ∷ xs))
          × Settles (x ∷ xs) res)

  settled_first :
      (w v : n.World) (x : Exchange) (last : Err) (out : n.World × Result Err Text)
      → l.log v ≡ l.log w ++ (x ∷ [])
      → (do_once x).retryable ≡ true
      → (do_once x).result ≡ err last
      → Rest last v out
      → (y : Exchange) × (xs : List Exchange) × (l.log out.0 ≡ l.log w ++ (y ∷ xs))
        × Settles (y ∷ xs) out.1
  settled_first w v x last (u, res) logged again failed (inl (same, inl e)) =
      (x, [], same ∙ logged, inl (e ∙ sym failed))
  settled_first w v x last (u, res) logged again failed (inl (same, inr e)) =
      (x, [], same ∙ logged, inr ((again, last, failed), e))
  settled_first w v x last (u, res) logged again failed (inr (y, xs, more, settled)) = (
    x,
    y ∷ xs,
    more
        ∙ ap (λ (z : List Exchange). z ++ (y ∷ xs)) logged
        ∙ append_assoc (l.log w) (x ∷ []) (y ∷ xs),
    ((again, last, failed), settled),
  )

  retry_loop-Rest :
      (base left attempt : ℕ) (last : Err) (w : n.World)
      → Rest last w (retry_loop n base left attempt last w)
  unfolding retry_loop
  retry_loop-Rest base zero attempt last w = inl (refl, inl refl)
  retry_loop-Rest base (suc left) attempt last w =
      let waited = before_attempt n base attempt w in
      let reply = n.exchange waited.0 in
      let outcome = do_once reply.1 in
      let b = before_attempt-log base attempt w in
      let logged = l.exchange_log waited.0 ∙ ap (λ (z : List Exchange). z ++ (reply.1 ∷ [])) b in
      elim (Bool-cases waited.1) [
        | inl stop ↦ rw stop (inl (b, inr refl))
        | inr go ↦ elim (Result-cases outcome.result) [
          | inl (text, e) ↦ rw (go, e) (inr (reply.1, [], logged, inl (sym e)))
          | inr (y, e) ↦ elim (Bool-cases outcome.retryable) [
            | inl again ↦
                rw (go, e, again)
                  (inr (
                    settled_first w reply.0 reply.1 y
                      (retry_loop n base left (attempt + 1) y reply.0) logged again e
                      (retry_loop-Rest base left (attempt + 1) y reply.0)))
            | inr final ↦ rw (go, e, final) (inr (reply.1, [], logged, inl (sym e)))
          ]
        ]
      ]

  -- A call whose number of attempts is an int64 makes at least one attempt; every attempt but the last is
  -- a retryable failure, so nothing is posted after an answer or after a failure that is not retryable,
  -- at whatever attempt it comes; and the call returns the result of its last attempt, or
  -- ErrPipelineCancelled if it was cancelled in the wait behind a retryable failure.
  pub call-Settles :
      (a : Adapter) (w : n.World)
      → a.max_retries + 1 < 2 ^ 63
      → (x : Exchange) × (xs : List Exchange) × (l.log (call n a w).0 ≡ l.log w ++ (x ∷ xs))
        × Settles (x ∷ xs) (call n a w).1
  unfolding call retry_loop before_attempt
  call-Settles a w attempts =
      let reply = n.exchange w in
      let outcome = do_once reply.1 in
      let logged = l.exchange_log w in
      let base = a.retry_base_delay in
      elim (Result-cases outcome.result) [
        | inl (text, e) ↦ rw e (reply.1, [], logged, inl (sym e))
        | inr (y, e) ↦ elim (Bool-cases outcome.retryable) [
          | inl again ↦
              rw (e, again)
                (settled_first w reply.0 reply.1 y (retry_loop n base a.max_retries 1 y reply.0)
                  logged again e (retry_loop-Rest base a.max_retries 1 y reply.0))
          | inr final ↦ rw (e, final) (reply.1, [], logged, inl (sym e))
        ]
      ]
