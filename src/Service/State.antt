-- ===== src/Service/State.antt =====
-- The memory of `pipelineService`: the map of entries, the contexts, the goroutines that it launched,
-- and the small operations on them.
use evo_bot_runtime.Prelude.{
  ℕ, suc, Bool, true, List, Option, none, some, ok, err, ◌==◌, if◌then◌else◌,
}
use evo_bot_runtime.Prelude.Text.{Text}
use evo_bot_runtime.Prelude.Assoc.{lookup, insert, erase}
use evo_bot_runtime.Errors.{Err}
use evo_bot_runtime.Model.{PairId, BotConfig, Metadata, Attachment, MessageEvent}
use evo_bot_runtime.Keys.{pair_key}
use evo_bot_runtime.Monad.{M}

-- `pipelineEntry`; a context with its cancel function is a number, and `cancelled` below says
-- whether it is done.
pub record Entry : Type 0 where
  pub ctx : ℕ
  pub cfg : BotConfig
  pub postback_url : Text
  pub outgoing_url : Text
  pub api_key : Text
  pub metadata : Metadata

-- The arguments of a `runAIStage` goroutine.
pub record AiTask : Type 0 where
  pub ctx : ℕ
  pub pair : PairId
  pub buffer : Text
  pub attachments : List Attachment
  pub cfg : BotConfig
  pub postback_url : Text

-- The arguments of a `runDispatchStage` goroutine.
pub record DispatchTask : Type 0 where
  pub ctx : ℕ
  pub pair : PairId
  pub content : Text
  pub cfg : BotConfig
  pub postback_url : Text

-- A call of `Dispatch` with the notice that replaces a failed turn.
pub record Notice : Type 0 where
  pub pair : PairId
  pub content : Text
  pub cfg : BotConfig
  pub postback_url : Text

pub record Service (Db : Type 0) : Type 0 where
  pub db : Db
  pub entries : List (Text × Entry)
  pub cancelled : ℕ → Bool
  -- the next context; the clock; the goroutines launched so far and not ended
  pub fresh : ℕ
  pub now : ℕ
  pub ai_tasks : List AiTask
  pub dispatch_tasks : List DispatchTask
  pub notices : List Notice
  -- `stopCh` is closed
  pub stopped : Bool

abbrev pub pair_of : MessageEvent → PairId
pair_of ev = record { contact_id = ev.contact_id; conversation_id = ev.conversation_id }

abbrev pub mark : (ℕ → Bool) → ℕ → ℕ → Bool
mark f c d = if c == d then true else f d

abbrev pub new_entry : ℕ → MessageEvent → Entry
new_entry c ev = record {
  ctx = c;
  cfg = ev.bot_config;
  postback_url = ev.postback_url;
  outgoing_url = ev.outgoing_url;
  api_key = ev.api_key;
  metadata = ev.metadata;
}

module _ {Db : Type 0} where
  -- a call of the repository
  abbrev pub lift : {A : Type 0} → M Db A → M (Service Db) A
  lift m s = (record s { db = (m s.db).0 }, (m s.db).1)

  -- `cancel()`
  abbrev pub cancel_ctx : ℕ → Service Db → Service Db
  cancel_ctx c s = record s { cancelled = mark s.cancelled c }

  abbrev pub delete_entry : PairId → Service Db → Service Db
  delete_entry p s = record s { entries = erase (pair_key p) s.entries }

  -- `context.WithCancel` and `entries.Store`
  unfoldable pub store_entry : PairId → (ℕ → Entry) → M (Service Db) ℕ
  store_entry p make s = (
    record s { fresh = suc s.fresh; entries = insert (pair_key p) (make s.fresh) s.entries },
    ok s.fresh,
  )

  abbrev cancel_found : PairId → Option Entry → Service Db → Service Db
  cancel_found p none s = s
  cancel_found p (some e) s = cancel_ctx e.ctx (delete_entry p s)

  -- `cancelPair`
  unfoldable pub cancel_pair : PairId → Service Db → Service Db
  cancel_pair p s = cancel_found p (lookup (pair_key p) s.entries) s

  -- `cancel(); s.entries.Delete(key); return err`
  unfoldable pub abandon : {A : Type 0} → ℕ → PairId → Err → M (Service Db) A
  abandon c p e s = (delete_entry p (cancel_ctx c s), err e)
