-- ===== src/Repository.antt =====
-- The interface of pkg/pipeline/repository/pipeline_repository.go: its operations, each a call that
-- changes the store and may fail, and the contract that its clients rely on.
pub mod Redis
pub mod Server
pub mod Separation
pub mod CellWrites
pub mod RedisContract
pub mod Scanned
use evo_bot_runtime.Prelude.{ℕ, Bool, All, List, [], ◌∷◌, ◌++◌, Option, none, some, ok, ◌≡◌, ◌≢◌}
use evo_bot_runtime.Prelude.Text.{Text}
use evo_bot_runtime.Model.{PairId, PipelineState, Attachment, Metadata, end, field}
use evo_bot_runtime.Monad.{M}
use evo_bot_runtime.Keys.RoundTrip.{IsInt64Pair}

pub record Repository : Type 1 where
  pub Db : Type 0
  pub Mutex : Type 0
  pub get_state : PairId → M Db (Option PipelineState)
  pub set_state : PairId → PipelineState → M Db (Unit {0})
  pub clear_state : PairId → M Db (Unit {0})
  pub append_to_buffer : PairId → Text → M Db (Unit {0})
  pub get_buffer : PairId → M Db (List Text)
  pub append_attachments : PairId → List Attachment → M Db (Unit {0})
  pub get_attachments : PairId → M Db (List Attachment)
  -- the time to live in seconds
  pub set_timer : PairId → ℕ → M Db (Unit {0})
  pub delete_timer : PairId → M Db (Unit {0})
  pub timer_exists : PairId → M Db Bool
  pub acquire_lock : PairId → M Db Mutex
  pub unlock : Mutex → M Db Bool
  pub scan_states : ℕ → M Db (List PairId)
  pub ping : M Db (Unit {0})

-- What the store holds for one pair, timers and locks aside.
pub record Cell : Type 0 where
  pub state : Option PipelineState
  pub buffer : List Text
  pub media : List Attachment

-- `json:"metadata,omitempty"`: an empty map is read back as nil.
abbrev pub omit_empty : Metadata → Metadata
omit_empty none = none
omit_empty (some end) = none
omit_empty (some (field k v fs)) = some (field k v fs)

-- A state as it is read back.
abbrev pub stored : PipelineState → PipelineState
stored st = record st { metadata = omit_empty st.metadata }

abbrev pub empty_cell : Cell
empty_cell = record { state = none; buffer = []; media = [] }

-- What a call on the pair `p` comes to: done, it changes the cell of `p` by `change`; done or not, it
-- leaves the cells of the other pairs alone.
pub record Writes {Db : Type 0} (view : Db → PairId → Cell) (p : PairId) (change : Cell → Cell)
    (call : M Db (Unit {0})) : Type 0 where
  pub here : (db : Db) → (call db).1 ≡ ok tt → view (call db).0 p ≡ change (view db p)
  pub elsewhere :
      (db : Db) (q : PairId)
      → IsInt64Pair p
      → IsInt64Pair q
      → p ≢ q
      → view (call db).0 q ≡ view db q

-- A call that changes no cell.
abbrev pub Reads : {Db A : Type 0} → (Db → PairId → Cell) → M Db A → Type 0
Reads {Db} view call = (db : Db) (q : PairId) → view (call db).0 q ≡ view db q

pub record Contract (r : Repository) : Type 0 where
  pub view : r.Db → PairId → Cell
  pub get_state_reads : (p : PairId) → Reads view (r.get_state p)
  pub get_state_value :
      (p : PairId) (db : r.Db) (o : Option PipelineState)
      → (r.get_state p db).1 ≡ ok o
      → o ≡ (view db p).state
  pub set_state_writes :
      (p : PairId) (st : PipelineState)
      → Writes view p (λ c. record c { state = some (stored st) }) (r.set_state p st)
  pub clear_state_writes : (p : PairId) → Writes view p (λ c. empty_cell) (r.clear_state p)
  pub append_to_buffer_writes :
      (p : PairId) (t : Text)
      → Writes view p (λ c. record c { buffer = c.buffer ++ (t ∷ []) }) (r.append_to_buffer p t)
  pub get_buffer_reads : (p : PairId) → Reads view (r.get_buffer p)
  pub get_buffer_value :
      (p : PairId) (db : r.Db) (b : List Text)
      → (r.get_buffer p db).1 ≡ ok b
      → b ≡ (view db p).buffer
  pub append_attachments_writes :
      (p : PairId) (new : List Attachment)
      → Writes view p (λ c. record c { media = c.media ++ new }) (r.append_attachments p new)
  pub get_attachments_reads : (p : PairId) → Reads view (r.get_attachments p)
  pub get_attachments_value :
      (p : PairId) (db : r.Db) (l : List Attachment)
      → (r.get_attachments p db).1 ≡ ok l
      → l ≡ (view db p).media
  pub set_timer_reads : (p : PairId) (n : ℕ) → Reads view (r.set_timer p n)
  pub delete_timer_reads : (p : PairId) → Reads view (r.delete_timer p)
  pub timer_exists_reads : (p : PairId) → Reads view (r.timer_exists p)
  pub acquire_lock_reads : (p : PairId) → Reads view (r.acquire_lock p)
  pub unlock_reads : (m : r.Mutex) → Reads view (r.unlock m)
  pub scan_states_reads : (n : ℕ) → Reads view (r.scan_states n)
  pub scan_states_pairs :
      (n : ℕ) (db : r.Db) (ps : List PairId) → (r.scan_states n db).1 ≡ ok ps → All IsInt64Pair ps
  pub ping_reads : Reads view r.ping
