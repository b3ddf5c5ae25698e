-- ===== src/Repository/Server.antt =====
-- What the repository relies on of the Redis server, of redsync and of encoding/json.
use evo_bot_runtime.Prelude.{ℕ, List, [], ◌∷◌, ◌++◌, Option, none, some, ok, ◌≡◌, ◌⊎◌}
use evo_bot_runtime.Prelude.Text.{Text}
use evo_bot_runtime.Model.{PairId, PipelineState, Attachment}
use evo_bot_runtime.Keys.{lock_key}
use evo_bot_runtime.Monad.{M}
use evo_bot_runtime.Repository.{stored}
use evo_bot_runtime.Repository.Redis.{Redis, Codec}

-- What Redis holds under a key: a string, or a list, which is empty if there is none.
pub record Slot (Value : Type 0) : Type 0 where
  pub string : Option Value
  pub list : List Value

abbrev pub no_slot : {Value : Type 0} → Slot Value
no_slot = record { string = none; list = [] }

abbrev pub Member : Text → List Text → Type 0
Member j [] = ⊥
Member j (k ∷ ks) = (j ≡ k) ⊎ Member j ks

-- A command on some keys leaves the others alone, done or not.
abbrev pub Touches :
    {Db A Value : Type 0} → (Db → Text → Slot Value) → (Text → Type 0) → M Db A → Type 0
Touches {Db} slot Keys call = (db : Db) (j : Text) → ¬ (Keys j) → slot (call db).0 j ≡ slot db j

-- What the file relies on, as Redis documents it: the effect of a command that succeeds, and that a
-- command touches its own keys only. The expiry of a key is a change of the store between commands.
pub record RedisLaws (d : Redis) : Type 0 where
  pub slot : d.Db → Text → Slot d.Value
  pub text_back : (t : Text) → d.to_text (d.of_text t) ≡ t
  pub get_touches : (k : Text) → Touches slot (λ j. ⊥) (d.get k)
  pub get_value :
      (k : Text) (db : d.Db) (o : Option d.Value) → (d.get k db).1 ≡ ok o → o ≡ (slot db k).string
  pub set_touches : (k : Text) (v : d.Value) (ttl : ℕ) → Touches slot (λ j. j ≡ k) (d.set k v ttl)
  pub set_here :
      (k : Text) (v : d.Value) (ttl : ℕ) (db : d.Db)
      → (d.set k v ttl db).1 ≡ ok tt
      → slot (d.set k v ttl db).0 k ≡ record { string = some v; list = [] }
  pub del_touches : (ks : List Text) → Touches slot (λ j. Member j ks) (d.del ks)
  pub del_here :
      (ks : List Text) (k : Text) (db : d.Db)
      → Member k ks
      → (d.del ks db).1 ≡ ok tt
      → slot (d.del ks db).0 k ≡ no_slot
  pub rpush_touches : (k : Text) (vs : List d.Value) → Touches slot (λ j. j ≡ k) (d.rpush k vs)
  pub rpush_here :
      (k : Text) (vs : List d.Value) (db : d.Db)
      → (d.rpush k vs db).1 ≡ ok tt
      → (slot (d.rpush k vs db).0 k).list ≡ (slot db k).list ++ vs
  pub lrange_touches : (k : Text) → Touches slot (λ j. ⊥) (d.lrange k)
  pub lrange_value :
      (k : Text) (db : d.Db) (l : List d.Value) → (d.lrange k db).1 ≡ ok l → l ≡ (slot db k).list
  pub expire_touches : (k : Text) (ttl : ℕ) → Touches slot (λ j. ⊥) (d.expire k ttl)
  pub exists_touches : (k : Text) → Touches slot (λ j. ⊥) (d.exists k)
  pub scan_touches :
      (pattern : Text) (db : d.Db) (j : Text) → slot (d.scan pattern db).0 j ≡ slot db j
  pub lock_touches : (k : Text) → Touches slot (λ j. j ≡ k) (d.lock k)
  pub unlock_touches :
      (m : d.Mutex) → Touches slot (λ j. (p : PairId) × (j ≡ lock_key p)) (d.unlock m)
  pub ping_touches : Touches slot (λ j. ⊥) d.ping

-- What the file relies on of encoding/json: what it writes it reads back, empty metadata as nil.
pub record CodecLaws {Value : Type 0} (k : Codec Value) : Type 0 where
  pub state_back :
      (st : PipelineState) (b : Value)
      → k.marshal_state st ≡ ok b
      → k.unmarshal_state b ≡ ok (stored st)
  pub attachment_back :
      (a : Attachment) (b : Value) → k.marshal_attachment a ≡ ok b → k.unmarshal_attachment b ≡ ok a
