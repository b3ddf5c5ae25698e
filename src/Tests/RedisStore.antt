-- ===== src/Tests/RedisStore.antt =====
-- The Redis repository over the server in memory, and the states of it that count as idle for a pair.
use evo_bot_runtime.Prelude.{
  Bool, true, false, not, ◌&&◌, [], ◌∷◌, Option, none, some, ok, ◌≡◌, refl, arith, ◌⊎◌, inl, inr,
}
use evo_bot_runtime.Prelude.Text.{text_eq, text_eq_refl}
use evo_bot_runtime.Model.{PairId, PipelineState}
use evo_bot_runtime.Keys.{redis_key, state_key, buffer_key, attach_buffer_key, timer_key}
use evo_bot_runtime.Repository.{Repository, stored}
use evo_bot_runtime.Repository.Redis.{
  new_pipeline_repository, get_state, set_state, clear_state, get_buffer, get_attachments,
  timer_exists, acquire_lock,
}
use evo_bot_runtime.Service.Progress.{Serves}
use evo_bot_runtime.Tests.Server.{
  Bytes, plain, state_json, attachment_json, Slots, server, json, is_some, del_all-here,
}

abbrev redis : Repository
redis = new_pipeline_repository server json

abbrev is_state : Option Bytes → Bool
is_state none = true
is_state (some (state_json st)) = true
is_state (some (plain t)) = false
is_state (some (attachment_json a)) = false

abbrev is_idle : PairId → Slots → Bool
is_idle p db = not (is_some (db (timer_key p)).string) && is_state (db (state_key p)).string

keys_apart : (p : PairId) → text_eq (state_key p) (timer_key p) ≡ false
unfolding redis_key text_eq
keys_apart p = refl

no_timer :
    (p : PairId) (db : Slots) → is_idle p db ≡ true → is_some (db (timer_key p)).string ≡ false
no_timer p db h = ground arith

-- an absent value, a state, or a value that is no state
Slot-cases :
    (o : Option Bytes)
    → (o ≡ none)
      ⊎ ((st : PipelineState) × (o ≡ some (state_json st)))
      ⊎ ((b : Bytes) × (o ≡ some b) × (is_state (some b) ≡ false))
Slot-cases none = inl refl
Slot-cases (some (state_json st)) = inr (inl (st, refl))
Slot-cases (some (plain t)) = inr (inr (plain t, refl, refl))
Slot-cases (some (attachment_json a)) = inr (inr (attachment_json a, refl, refl))

state-Answers :
    (p : PairId) (db : Slots)
    → is_idle p db ≡ true
    → (is_idle p (get_state server json p db).0 ≡ true)
      × (o : Option PipelineState) × ((get_state server json p db).1 ≡ ok o)
unfolding get_state
state-Answers p db h = elim (Slot-cases (db (state_key p)).string) [
  | inl e ↦ (rw e h, none, rw e refl)
  | inr (inl (st, e)) ↦ (rw e h, some (stored st), rw e refl)
  | inr (inr (b, e, bad)) ↦ absurd (ground arith)
]

set-Answers :
    (p : PairId) (st : PipelineState) (db : Slots)
    → is_idle p db ≡ true
    → (is_idle p (set_state server json p st db).0 ≡ true)
      × (o : Unit {0}) × ((set_state server json p st db).1 ≡ ok o)
unfolding set_state
set-Answers p st db h =
    (rw (keys_apart p, text_eq_refl (state_key p), no_timer p db h) refl, tt, refl)

clear-Answers :
    (p : PairId) (db : Slots)
    → is_idle p db ≡ true
    → (is_idle p (clear_state server json p db).0 ≡ true)
      × (o : Unit {0}) × ((clear_state server json p db).1 ≡ ok o)
unfolding clear_state
clear-Answers p db h =
    let keys = state_key p ∷ buffer_key p ∷ attach_buffer_key p ∷ timer_key p ∷ [] in
    (
      rw
          (
            del_all-here keys db (timer_key p) (inr (inr (inr (inl refl)))),
            del_all-here keys db (state_key p) (inl refl),
          )
          refl,
      tt,
      refl,
    )

-- The Redis repository serves a pair in the states in which no timer of it is stored and its state can be
-- read.
redis-Serves : (p : PairId) → Serves redis p
unfolding new_pipeline_repository get_buffer get_attachments timer_exists acquire_lock
redis-Serves p = record {
  idle = is_idle p;
  locked = λ mu. is_idle p;
  state = state-Answers p;
  expired = λ db h. (h, rw (no_timer p db h) refl);
  acquire = λ db h. (tt, refl, h);
  locked_state = λ mu. state-Answers p;
  locked_expired = λ mu db h. (h, rw (no_timer p db h) refl);
  buffer = λ mu db h. (h, _, refl);
  media = λ mu db h. (h, _, refl);
  locked_write = λ mu. set-Answers p;
  unlock = λ mu db h. h;
  write = set-Answers p;
  clear = clear-Answers p;
}
