-- ===== src/Ai/Adapter/Deadline.antt =====
-- The time limit of all the attempts of a call, against the time that they may take one by one.
use evo_bot_runtime.Prelude.{ℕ, ◌+◌, ◌*◌, ◌^◌, ◌≤◌, ◌<◌, some, ◌≡◌, arith}
use evo_bot_runtime.Prelude.Int.{pos}
use evo_bot_runtime.Ai.Retry.{Adapter, Network, call, max_backoff}
use evo_bot_runtime.Ai.Retry.Laws.{Ledger, call-ledger}
use evo_bot_runtime.Ai.Retry.Rule.{Keeps, call-Keeps}
use evo_bot_runtime.Ai.Adapter.{second, per_attempt, overall_ceiling}

mul_suc : (k t : ℕ) → (k + 1) * t ≡ k * t + t
mul_suc k t = grind arith

mul_mono : (j k t : ℕ) → j ≤ k → j * t ≤ k * t
mul_mono j k t h = grind arith

per_attempt-exact : (secs : ℕ) → secs * second < 2 ^ 63 → per_attempt (pos secs) ≡ secs * second
unfolding per_attempt
per_attempt-exact secs h = omega arith

ceiling-exact :
    (a : Adapter) (secs limit : ℕ)
    → a.timeout_secs ≡ pos secs
    → (a.max_retries + 2) * (secs * second) + a.max_retries * max_backoff < 2 ^ 63
    → overall_ceiling a ≡ some limit
    → limit ≡ (a.max_retries + 2) * (secs * second) + a.max_retries * max_backoff
unfolding overall_ceiling
ceiling-exact a secs limit e small h =
    let alone = mul_mono 1 (a.max_retries + 2) (secs * second) (omega arith) in
    let each : per_attempt a.timeout_secs ≡ secs * second =
      rw e (per_attempt-exact secs (omega arith)) in
    let g = rw each at h in ground arith

-- The time that passes: in a POST at most its timeout, in a wait what the ledger counts, and none
-- elsewhere.
pub record Clock (n : Network) (l : Ledger n) (timeout : ℕ) : Type 0 where
  pub elapsed : n.World → ℕ
  pub exchange_elapsed : (w : n.World) → elapsed (n.exchange w).0 ≤ elapsed w + timeout
  pub random_elapsed : (k : ℕ) (w : n.World) → elapsed (n.random k w).0 ≡ elapsed w
  pub wait_elapsed :
      (d : ℕ) (w : n.World)
      → elapsed (n.wait d w).0 + l.waited w ≤ elapsed w + l.waited (n.wait d w).0

module _ (n : Network) (l : Ledger n) (timeout : ℕ) (c : Clock n l timeout) where
  abbrev Timed : n.World → n.World → Type 0
  Timed w u =
      (k : ℕ) × (l.posts u ≡ l.posts w + k)
      × (c.elapsed u + l.waited w ≤ c.elapsed w + k * timeout + l.waited u)

  Timed-Keeps : (w : n.World) → Keeps n (Timed w)
  Timed-Keeps w = record {
    exchange = λ u (k, p, t). (
      k + 1,
      omega (arith, l.exchange_posts u, p),
      omega (arith, l.exchange_waited u, c.exchange_elapsed u, mul_suc k timeout, t),
    );
    random = λ d u (k, p, t). (
      k,
      omega (arith, l.random_posts d u, p),
      omega (arith, l.random_waited d u, c.random_elapsed d u, t),
    );
    wait = λ d u (k, p, t).
        (k, omega (arith, l.wait_posts d u, p), omega (arith, c.wait_elapsed d u, t));
  }

  call-elapsed :
      (a : Adapter) (w : n.World)
      → c.elapsed (call n a w).0
        ≤ c.elapsed w + (a.max_retries + 1) * timeout + a.max_retries * max_backoff
  call-elapsed a w =
      let (k, p, t) = call-Keeps n (Timed w) (Timed-Keeps w) a w (0, omega arith, omega arith) in
      let (posts, waited) = call-ledger n l a w in
      let few : k ≤ a.max_retries + 1 = omega arith in
      let short = mul_mono k (a.max_retries + 1) timeout few in omega arith

  -- As long as the times fit an int64, the limit of all the attempts together leaves room for one more
  -- attempt behind all that a call may spend on attempts that keep to their timeout and on the waits
  -- between them: the limit cuts none of them off.
  pub call-ceiling :
      (a : Adapter) (secs limit : ℕ) (w : n.World)
      → a.timeout_secs ≡ pos secs
      → timeout ≡ secs * second
      → (a.max_retries + 2) * timeout + a.max_retries * max_backoff < 2 ^ 63
      → overall_ceiling a ≡ some limit
      → c.elapsed (call n a w).0 + timeout ≤ c.elapsed w + limit
  unfolding overall_ceiling per_attempt
  call-ceiling a secs limit w e s small h =
      let spent = call-elapsed a w in
      let one_more = mul_suc (a.max_retries + 1) timeout in
      let exact = ceiling-exact a secs limit e (rw (← s) small) h in
      let same : (a.max_retries + 2) * (secs * second) ≡ (a.max_retries + 2) * timeout = rw s in
      omega arith
