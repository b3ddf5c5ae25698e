-- ===== src/Keys/Injective.antt =====
-- The keys of different pairs and of different kinds of data.
use evo_bot_runtime.Prelude.{
  [], ◌==◌, if◌then◌else◌, refl, some, false, ◌≢◌, arith, ◌∷◌, ◌++◌, ◌≡◌, ap, sym, ◌∙◌,
}
use evo_bot_runtime.Prelude.Text.{Text, codes, text_eq, text_eq_iff}
use evo_bot_runtime.Model.{PairId}
use evo_bot_runtime.Keys.{
  cut, pair_key, parse_pair_key, redis_key, state_key, buffer_key, attach_buffer_key, lock_key,
  timer_key,
}
use evo_bot_runtime.Keys.RoundTrip.{LacksColon, cut_at, IsInt64Pair, parse_pair_key-pair_key}

pub pair_key-injective :
    (p q : PairId) → IsInt64Pair p → IsInt64Pair q → pair_key p ≡ pair_key q → p ≡ q
pair_key-injective p q hp hq e =
    sym (parse_pair_key-pair_key p hp) ∙ ap parse_pair_key e ∙ parse_pair_key-pair_key q hq

behind_prefix : (s t : Text) → codes "bot_runtime:" ++ s ≡ codes "bot_runtime:" ++ t → s ≡ t
behind_prefix s t e = cc

redis_key-parts :
    (j k : Text) (p q : PairId)
    → LacksColon j
    → LacksColon k
    → redis_key j p ≡ redis_key k q
    → (j ≡ k) × (pair_key p ≡ pair_key q)
unfolding redis_key
redis_key-parts j k p q hj hk e =
    let tails = behind_prefix (j ++ (b':' ∷ pair_key p)) (k ++ (b':' ∷ pair_key q)) e in
    let cuts : some (j, pair_key p) ≡ some (k, pair_key q) =
      sym (cut_at j (pair_key p) hj) ∙ ap cut tails ∙ cut_at k (pair_key q) hk in
    (cc cuts, cc cuts)

-- Keys of different kinds differ, whatever the pairs.
pub redis_key-kind :
    (j k : Text) (p q : PairId)
    → LacksColon j
    → LacksColon k
    → text_eq j k ≡ false
    → redis_key j p ≢ redis_key k q
redis_key-kind j k p q hj hk h e = ground (arith, text_eq_iff j k, redis_key-parts j k p q hj hk e)

-- Two Redis keys are equal only for one kind of data and one pair.
pub redis_key-injective :
    (j k : Text) (p q : PairId)
    → LacksColon j
    → LacksColon k
    → IsInt64Pair p
    → IsInt64Pair q
    → redis_key j p ≡ redis_key k q
    → (j ≡ k) × (p ≡ q)
redis_key-injective j k p q hj hk hp hq e =
    let (kinds, pairs) = redis_key-parts j k p q hj hk e in
    (kinds, pair_key-injective p q hp hq pairs)

-- The five kinds of keys.
pub data Kind : Type 0 where
  of_state of_buffer of_attach of_lock of_timer : Kind

abbrev pub key_of : Kind → PairId → Text
key_of of_state p = state_key p
key_of of_buffer p = buffer_key p
key_of of_attach p = attach_buffer_key p
key_of of_lock p = lock_key p
key_of of_timer p = timer_key p

abbrev kind_text : Kind → Text
kind_text of_state = codes "state"
kind_text of_buffer = codes "buffer"
kind_text of_attach = codes "attach"
kind_text of_lock = codes "lock"
kind_text of_timer = codes "timer"

-- the kind by its first letter
abbrev kind_of : Text → Kind
kind_of [] = of_timer
kind_of (c ∷ s) =
    if c == b's'
    then of_state
    else if c == b'b'
    then of_buffer
    else if c == b'a'
    then of_attach
    else if c == b'l'
    then of_lock
    else of_timer

kind_of-kind_text : (k : Kind) → kind_of (kind_text k) ≡ k
kind_of-kind_text of_state = refl
kind_of-kind_text of_buffer = refl
kind_of-kind_text of_attach = refl
kind_of-kind_text of_lock = refl
kind_of-kind_text of_timer = refl

kind_text-LacksColon : (k : Kind) → LacksColon (kind_text k)
kind_text-LacksColon of_state = omega arith
kind_text-LacksColon of_buffer = omega arith
kind_text-LacksColon of_attach = omega arith
kind_text-LacksColon of_lock = omega arith
kind_text-LacksColon of_timer = omega arith

key_of-redis_key : (k : Kind) (p : PairId) → key_of k p ≡ redis_key (kind_text k) p
key_of-redis_key of_state p = refl
key_of-redis_key of_buffer p = refl
key_of-redis_key of_attach p = refl
key_of-redis_key of_lock p = refl
key_of-redis_key of_timer p = refl

-- Two keys of the repository are equal only if they are of the same one of its five kinds and of the
-- same pair of int64 ids.
pub key_of-injective :
    (j k : Kind) (p q : PairId)
    → IsInt64Pair p
    → IsInt64Pair q
    → key_of j p ≡ key_of k q
    → (j ≡ k) × (p ≡ q)
key_of-injective j k p q hp hq e =
    let (texts, pairs) =
      redis_key-injective (kind_text j) (kind_text k) p q (kind_text-LacksColon j)
        (kind_text-LacksColon k) hp hq (sym (key_of-redis_key j p) ∙ e ∙ key_of-redis_key k q) in
    (sym (kind_of-kind_text j) ∙ ap kind_of texts ∙ kind_of-kind_text k, pairs)
