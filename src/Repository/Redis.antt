-- ===== src/Repository/Redis.antt =====
-- pkg/pipeline/repository/redis_pipeline_repository.go over the clients go-redis and redsync, which are
-- parameters: the commands that the file sends, with what Redis documents of them.
use evo_bot_runtime.Prelude.{
  ℕ, Bool, List, [], ◌∷◌, ◌++◌, Option, none, some, Result, ok, err, length, leb, map,
  if◌then◌else◌,
}
use evo_bot_runtime.Prelude.Text.{Text, codes}
use evo_bot_runtime.Errors.{Err, Sentinel}
use evo_bot_runtime.Model.{PairId, PipelineState, Attachment}
use evo_bot_runtime.Keys.{
  state_key, buffer_key, attach_buffer_key, lock_key, timer_key, parse_state_key,
}
use evo_bot_runtime.Monad.{M, pure, fail, handle, context, ◌>>=◌, ◌>>◌}
use evo_bot_runtime.Repository.{Repository}

pub record Redis : Type 1 where
  pub Db : Type 0
  pub Mutex : Type 0
  -- the bytes of a value, and a Go string as such bytes and back
  pub Value : Type 0
  pub of_text : Text → Value
  pub to_text : Value → Text
  -- GET; `none` is redis.Nil
  pub get : Text → M Db (Option Value)
  -- SET key value with a time to live in seconds, 0 for none
  pub set : Text → Value → ℕ → M Db (Unit {0})
  pub del : List Text → M Db (Unit {0})
  pub rpush : Text → List Value → M Db (Unit {0})
  -- LRANGE key 0 -1
  pub lrange : Text → M Db (List Value)
  pub expire : Text → ℕ → M Db (Unit {0})
  -- EXISTS, and whether the count is above 0
  pub exists : Text → M Db Bool
  -- the replies of the successive SCAN calls with a pattern, until the cursor is 0 again
  pub scan : Text → Db → Db × List (Result Err (List Text))
  -- redsync: LockContext of a mutex with one try, and Unlock
  pub lock : Text → M Db Mutex
  pub unlock : Mutex → M Db Bool
  pub ping : M Db (Unit {0})

-- encoding/json on the two types that are stored
pub record Codec (Value : Type 0) : Type 0 where
  pub marshal_state : PipelineState → Result Err Value
  pub unmarshal_state : Value → Result Err PipelineState
  pub marshal_attachment : Attachment → Result Err Value
  pub unmarshal_attachment : Value → Result Err Attachment

abbrev pub from_result : {S A : Type 0} → Result Err A → M S A
from_result (ok a) = pure a
from_result (err e) = fail e

-- ten minutes
abbrev pub attach_buffer_ttl : ℕ
attach_buffer_ttl = 600

-- The loop of `ScanStates` is still running, or it has returned at the limit.
pub data Scan : Type 0 where
  running : List PairId → Scan
  limited : List PairId → Scan

abbrev pub add_pair : Option PairId → List PairId → List PairId
add_pair none pairs = pairs
add_pair (some p) pairs = pairs ++ (p ∷ [])

-- the keys of one reply
unfoldable pub scan_keys : ℕ → List Text → List PairId → Scan
scan_keys max [] pairs = running pairs
scan_keys max (key ∷ keys) pairs =
    let rest = scan_keys max keys (add_pair (parse_state_key key) pairs) in
    if leb max (length pairs) then limited pairs else rest

unfoldable pub scan_replies :
    ℕ → List (Result Err (List Text)) → List PairId → Result Err (List PairId)
unfolding scan_keys
scan_replies max [] pairs = ok pairs
scan_replies max (err e ∷ replies) pairs =
    err (Err.wrapped (codes "pipeline.repository.scan_states") e)
scan_replies max (ok keys ∷ replies) pairs = elim (scan_keys max keys pairs) [
  | limited found ↦ ok found
  | running found ↦ scan_replies max replies found
]

module _ {Value : Type 0} (k : Codec Value) where
  unfoldable pub marshal_all : List Attachment → Result Err (List Value)
  marshal_all [] = ok []
  marshal_all (a ∷ rest) = elim (k.marshal_attachment a) [
    | err e ↦ err (Err.wrapped (codes "pipeline.repository.append_attachments marshal") e)
    | ok b ↦ elim (marshal_all rest) [ err e ↦ err e | ok bs ↦ ok (b ∷ bs) ]
  ]

  -- malformed items are skipped
  unfoldable pub unmarshal_all : List Value → List Attachment
  unmarshal_all [] = []
  unmarshal_all (b ∷ bs) = elim (k.unmarshal_attachment b) [
    | err e ↦ unmarshal_all bs
    | ok a ↦ a ∷ unmarshal_all bs
  ]

module _ (d : Redis) (k : Codec d.Value) where
  unfoldable pub set_state : PairId → PipelineState → M d.Db (Unit {0})
  set_state p st = do
    b ← context (codes "pipeline.repository.set_state") (from_result (k.marshal_state st))
    d.set (state_key p) b 0

  abbrev unmarshal_found : Option d.Value → M d.Db (Option PipelineState)
  unmarshal_found none = pure none
  unmarshal_found (some b) = do
    st ←
        context (codes "pipeline.repository.get_state unmarshal")
          (from_result (k.unmarshal_state b))
    pure (some st)

  unfoldable pub get_state : PairId → M d.Db (Option PipelineState)
  get_state p = do
    found ← context (codes "pipeline.repository.get_state") (d.get (state_key p))
    unmarshal_found found

  unfoldable pub clear_state : PairId → M d.Db (Unit {0})
  clear_state p = d.del (state_key p ∷ buffer_key p ∷ attach_buffer_key p ∷ timer_key p ∷ [])

  unfoldable pub append_to_buffer : PairId → Text → M d.Db (Unit {0})
  append_to_buffer p content = d.rpush (buffer_key p) (d.of_text content ∷ [])

  unfoldable pub get_buffer : PairId → M d.Db (List Text)
  get_buffer p = do raw ← d.lrange (buffer_key p); pure (map d.to_text raw)

  unfoldable pub append_attachments : PairId → List Attachment → M d.Db (Unit {0})
  unfolding marshal_all
  append_attachments p [] = pure tt
  append_attachments p (a ∷ rest) = do
    values ← from_result (marshal_all k (a ∷ rest))
    d.rpush (attach_buffer_key p) values
    d.expire (attach_buffer_key p) attach_buffer_ttl

  unfoldable pub get_attachments : PairId → M d.Db (List Attachment)
  unfolding unmarshal_all
  get_attachments p = do
    raw ← context (codes "pipeline.repository.get_attachments") (d.lrange (attach_buffer_key p))
    pure (unmarshal_all k raw)

  unfoldable pub set_timer : PairId → ℕ → M d.Db (Unit {0})
  set_timer p ttl = d.set (timer_key p) (d.of_text (codes "1")) ttl

  unfoldable pub delete_timer : PairId → M d.Db (Unit {0})
  delete_timer p = d.del (timer_key p ∷ [])

  unfoldable pub timer_exists : PairId → M d.Db Bool
  timer_exists p = d.exists (timer_key p)

  unfoldable pub acquire_lock : PairId → M d.Db d.Mutex
  acquire_lock p = handle (d.lock (lock_key p)) (λ e. fail (Err.sentinel Sentinel.lock_failed))

  unfoldable pub scan_states : ℕ → M d.Db (List PairId)
  unfolding scan_replies
  scan_states max db =
      let scanned = d.scan (codes "bot_runtime:state:*") db in
      (scanned.0, scan_replies max scanned.1 [])

  -- `NewPipelineRepository`
  unfoldable pub new_pipeline_repository : Repository
  unfolding set_state get_state clear_state append_to_buffer get_buffer append_attachments
      get_attachments set_timer delete_timer timer_exists acquire_lock scan_states
  new_pipeline_repository = record {
    Db = d.Db;
    Mutex = d.Mutex;
    get_state = get_state;
    set_state = set_state;
    clear_state = clear_state;
    append_to_buffer = append_to_buffer;
    get_buffer = get_buffer;
    append_attachments = append_attachments;
    get_attachments = get_attachments;
    set_timer = set_timer;
    delete_timer = delete_timer;
    timer_exists = timer_exists;
    acquire_lock = acquire_lock;
    unlock = d.unlock;
    scan_states = scan_states;
    ping = d.ping;
  }
