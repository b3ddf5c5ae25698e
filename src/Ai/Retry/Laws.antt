-- ===== src/Ai/Retry/Laws.antt =====
-- Bounds on the retries and on the time that they wait.
use evo_bot_runtime.Prelude.{
  ℕ, zero, suc, ◌+◌, ◌-◌, ◌*◌, ◌/◌, ◌%◌, ◌^◌, ◌≤◌, ◌<◌, ◌||◌, ltb, ◌==◌, if◌then◌else◌, ◌≡◌, refl,
  ◌∙◌, arith, inl, inr, Bool-cases, Result-cases,
}
use evo_bot_runtime.Errors.{Err}
use evo_bot_runtime.Ai.Retry.{
  Adapter, max_backoff, capped_delay, do_once, Network, backoff_delay, before_attempt, retry_loop,
  call,
}

-- The exponential delay is never 0 and never above the cap, also where the shift or the product
-- overflows 64 bits.
pub capped_delay_bounds :
    (base attempt : ℕ) → (0 < capped_delay base attempt) × (capped_delay base attempt ≤ max_backoff)
unfolding capped_delay
capped_delay_bounds base attempt = (ground arith, ground arith)

exact_below_cap :
    (x : ℕ)
    → 0 < x
    → x ≤ max_backoff
    → (if (x % 2 ^ 64) == 0 || ltb max_backoff (x % 2 ^ 64) then max_backoff else x % 2 ^ 64) ≡ x
exact_below_cap x p s = let e : x % 2 ^ 64 ≡ x = omega arith in rw e (ground arith)

-- For a positive base the delay is the base times the power of 2 for the attempt, as long as that
-- product is within the cap.
capped_delay-exact :
    (base attempt : ℕ)
    → 0 < base * 2 ^ (attempt - 1)
    → base * 2 ^ (attempt - 1) ≤ max_backoff
    → capped_delay base attempt ≡ base * 2 ^ (attempt - 1)
unfolding capped_delay
capped_delay-exact base attempt positive small =
    exact_below_cap (base * 2 ^ (attempt - 1)) positive small

-- What the world of the adapter counts: the posts, and the time that was waited.
pub record Ledger (n : Network) : Type 0 where
  pub posts : n.World → ℕ
  pub waited : n.World → ℕ
  pub exchange_posts : (w : n.World) → posts (n.exchange w).0 ≡ posts w + 1
  pub exchange_waited : (w : n.World) → waited (n.exchange w).0 ≡ waited w
  -- `Int63n(k)` lies below `k`
  pub random_below : (k : ℕ) (w : n.World) → 0 < k → (n.random k w).1 < k
  pub random_posts : (k : ℕ) (w : n.World) → posts (n.random k w).0 ≡ posts w
  pub random_waited : (k : ℕ) (w : n.World) → waited (n.random k w).0 ≡ waited w
  pub wait_posts : (d : ℕ) (w : n.World) → posts (n.wait d w).0 ≡ posts w
  -- a wait ends at the latest after its time
  pub wait_waited : (d : ℕ) (w : n.World) → waited (n.wait d w).0 ≤ waited w + d

module _ (n : Network) (l : Ledger n) where
  backoff_delay-le :
      (base attempt : ℕ) (w : n.World) → (backoff_delay n base attempt w).1 ≤ max_backoff
  unfolding backoff_delay
  backoff_delay-le base attempt w =
      let d = capped_delay base attempt in
      let below = l.random_below (d / 2 + 1) w (omega arith) in
      omega (arith, below, (capped_delay_bounds base attempt).1)

  backoff_delay-rest :
      (base attempt : ℕ) (w : n.World)
      → (l.posts (backoff_delay n base attempt w).0 ≡ l.posts w)
        × (l.waited (backoff_delay n base attempt w).0 ≡ l.waited w)
  unfolding backoff_delay
  backoff_delay-rest base attempt w =
      let k = capped_delay base attempt / 2 + 1 in (l.random_posts k w, l.random_waited k w)

  before_attempt-ledger :
      (base a : ℕ) (w : n.World)
      → (l.posts (before_attempt n base a w).0 ≡ l.posts w)
        × (l.waited (before_attempt n base a w).0 ≤ l.waited w + max_backoff)
  unfolding before_attempt
  before_attempt-ledger base zero w = (refl, omega arith)
  before_attempt-ledger base (suc a) w =
      let delay = backoff_delay n base (suc a) w in
      let rest = backoff_delay-rest base (suc a) w in
      (
        l.wait_posts delay.1 delay.0 ∙ rest.0,
        omega (arith, l.wait_waited delay.1 delay.0, rest.1, backoff_delay-le base (suc a) w),
      )

  retry_loop-ledger :
      (base left attempt : ℕ) (last : Err) (w : n.World)
      → (l.posts (retry_loop n base left attempt last w).0 ≤ l.posts w + left)
        × (l.waited (retry_loop n base left attempt last w).0 ≤ l.waited w + left * max_backoff)
  unfolding retry_loop
  retry_loop-ledger base zero attempt last w = (omega arith, omega arith)
  retry_loop-ledger base (suc left) attempt last w =
      let waited = before_attempt n base attempt w in
      let reply = n.exchange waited.0 in
      let outcome = do_once reply.1 in
      let b = before_attempt-ledger base attempt w in
      let p = l.exchange_posts waited.0 in
      let t = l.exchange_waited waited.0 in
      elim (Bool-cases waited.1) [
        | inl stop ↦ rw stop (omega (arith, b), omega (arith, b))
        | inr go ↦ elim (Result-cases outcome.result) [
          | inl (text, e) ↦ rw (go, e) (omega (arith, b, p, t), omega (arith, b, p, t))
          | inr (x, e) ↦
              let more = retry_loop-ledger base left (attempt + 1) x reply.0 in
              elim (Bool-cases outcome.retryable) [
                | inl again ↦
                    rw (go, e, again) (omega (arith, b, p, t, more), omega (arith, b, p, t, more))
                | inr final ↦ rw (go, e, final) (omega (arith, b, p, t), omega (arith, b, p, t))
              ]
        ]
      ]

  -- A call sends its request at most once more than it has retries, and waits between the attempts at
  -- most the cap for each retry, whatever the replies are.
  pub call-ledger :
      (a : Adapter) (w : n.World)
      → (l.posts (call n a w).0 ≤ l.posts w + (a.max_retries + 1))
        × (l.waited (call n a w).0 ≤ l.waited w + a.max_retries * max_backoff)
  unfolding call retry_loop before_attempt
  call-ledger a w =
      let base = a.retry_base_delay in
      let reply = n.exchange w in
      let outcome = do_once reply.1 in
      let p = l.exchange_posts w in
      let t = l.exchange_waited w in
      elim (Result-cases outcome.result) [
        | inl (text, e) ↦ rw e (omega (arith, p, t), omega (arith, p, t))
        | inr (x, e) ↦
            let more = retry_loop-ledger base a.max_retries 1 x reply.0 in
            elim (Bool-cases outcome.retryable) [
              | inl again ↦ rw (e, again) (omega (arith, p, more), omega (arith, t, more))
              | inr final ↦ rw (e, final) (omega (arith, p, t), omega (arith, p, t))
            ]
      ]
