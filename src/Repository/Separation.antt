-- ===== src/Repository/Separation.antt =====
-- The keys of one pair and of two pairs, kind by kind.
use evo_bot_runtime.Prelude.{[], ◌∷◌, ◌≢◌, refl, sym, arith, inl, inr}
use evo_bot_runtime.Prelude.Text.{Text, codes, text_eq}
use evo_bot_runtime.Model.{PairId}
use evo_bot_runtime.Keys.{redis_key, state_key, buffer_key, attach_buffer_key, lock_key, timer_key}
use evo_bot_runtime.Keys.RoundTrip.{LacksColon, IsInt64Pair}
use evo_bot_runtime.Keys.Injective.{redis_key-kind, redis_key-injective}
use evo_bot_runtime.Repository.Server.{Member}

pub state_buffer : (p q : PairId) → state_key p ≢ buffer_key q
unfolding text_eq
state_buffer p q =
    redis_key-kind (codes "state") (codes "buffer") p q (omega arith) (omega arith) refl

pub state_attach : (p q : PairId) → state_key p ≢ attach_buffer_key q
unfolding text_eq
state_attach p q =
    redis_key-kind (codes "state") (codes "attach") p q (omega arith) (omega arith) refl

pub state_timer : (p q : PairId) → state_key p ≢ timer_key q
unfolding text_eq
state_timer p q =
    redis_key-kind (codes "state") (codes "timer") p q (omega arith) (omega arith) refl

pub state_lock : (p q : PairId) → state_key p ≢ lock_key q
unfolding text_eq
state_lock p q = redis_key-kind (codes "state") (codes "lock") p q (omega arith) (omega arith) refl

pub buffer_attach : (p q : PairId) → buffer_key p ≢ attach_buffer_key q
unfolding text_eq
buffer_attach p q =
    redis_key-kind (codes "buffer") (codes "attach") p q (omega arith) (omega arith) refl

pub buffer_timer : (p q : PairId) → buffer_key p ≢ timer_key q
unfolding text_eq
buffer_timer p q =
    redis_key-kind (codes "buffer") (codes "timer") p q (omega arith) (omega arith) refl

pub buffer_lock : (p q : PairId) → buffer_key p ≢ lock_key q
unfolding text_eq
buffer_lock p q =
    redis_key-kind (codes "buffer") (codes "lock") p q (omega arith) (omega arith) refl

pub attach_timer : (p q : PairId) → attach_buffer_key p ≢ timer_key q
unfolding text_eq
attach_timer p q =
    redis_key-kind (codes "attach") (codes "timer") p q (omega arith) (omega arith) refl

pub attach_lock : (p q : PairId) → attach_buffer_key p ≢ lock_key q
unfolding text_eq
attach_lock p q =
    redis_key-kind (codes "attach") (codes "lock") p q (omega arith) (omega arith) refl

-- A kind of key tells the pairs apart.
pub pairs_apart :
    (j : Text) (p q : PairId)
    → LacksColon j
    → IsInt64Pair p
    → IsInt64Pair q
    → p ≢ q
    → redis_key j q ≢ redis_key j p
pairs_apart j p q h hp hq ne e = ne (sym (redis_key-injective j j q p h h hq hp e).1)

pub not-Member :
    {j a b c d : Text} → j ≢ a → j ≢ b → j ≢ c → j ≢ d → ¬ (Member j (a ∷ b ∷ c ∷ d ∷ []))
not-Member na nb nc nd (inl e) = na e
not-Member na nb nc nd (inr (inl e)) = nb e
not-Member na nb nc nd (inr (inr (inl e))) = nc e
not-Member na nb nc nd (inr (inr (inr (inl e)))) = nd e
not-Member na nb nc nd (inr (inr (inr (inr e)))) = e

pub not_only : {j a : Text} → j ≢ a → ¬ (Member j (a ∷ []))
not_only na (inl e) = na e
not_only na (inr e) = e
