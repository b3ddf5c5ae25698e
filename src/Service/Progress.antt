-- ===== src/Service/Progress.antt =====
-- A turn whose timer has expired, and the tick of the poller that finds it.
pub mod Growth
pub mod Aside
pub mod Idle
pub mod Poll
pub mod Relaunch
use evo_bot_runtime.Prelude.{
  ℕ, Bool, true, false, not, ◌&&◌, List, [], ◌∷◌, ◌++◌, Option, none, some, Result, ok, err, ◌≡◌,
  ◌≢◌, refl, sym, ap, ◌∙◌, arith, ◌⊎◌, inl, inr, Bool-cases, Option-cases, Result-cases,
}
use evo_bot_runtime.Prelude.Text.{Text}
use evo_bot_runtime.Prelude.Assoc.{lookup}
use evo_bot_runtime.Model.{PairId, Stage, PipelineState, Attachment}
use evo_bot_runtime.Keys.{pair_key}
use evo_bot_runtime.Keys.RoundTrip.{IsInt64Pair}
use evo_bot_runtime.Monad.{M}
use evo_bot_runtime.Repository.{Repository, Cell, Contract}
use evo_bot_runtime.Debounce
use evo_bot_runtime.Debounce.Laws.{get_buffer-join, get_buffer-view}
use evo_bot_runtime.Service.State.{Service, Entry, AiTask}
use evo_bot_runtime.Service.Process.{
  S, in_debounce, bare_state, launch_ai_stage, advance_locked, advance_outcome, advance_to_ai,
  release,
}
use evo_bot_runtime.Service.Once.{entry_task}

-- In a store that passes a test, a call succeeds and leaves a store that passes another.
abbrev pub Answers : {Db A : Type 0} → (Db → Bool) → (Db → Bool) → M Db A → Type 0
Answers {Db} {A} before after call =
    (db : Db) → before db ≡ true → (after (call db).0 ≡ true) × (a : A) × ((call db).1 ≡ ok a)

-- In a store that passes a test, the timer of the pair has expired, and asking changes nothing of it.
abbrev pub Expired : (r : Repository) (p : PairId) → (r.Db → Bool) → Type 0
Expired r p test =
    (db : r.Db)
    → test db ≡ true
    → (test (r.timer_exists p db).0 ≡ true) × ((r.timer_exists p db).1 ≡ ok false)

-- A call keeps what passes a test.
abbrev pub Keeps : {Db A : Type 0} → (Db → Bool) → M Db A → Type 0
Keeps {Db} test call = (db : Db) → test db ≡ true → test (call db).0 ≡ true

-- The states of the store in which it serves the pair. In an idle one the timer of the pair has expired
-- and its lock is free; a call that takes the lock leads to a locked one, in which the timer is still
-- expired, and the release of the lock back to an idle one. No calls for other pairs set the timer of the
-- pair or take its lock.
pub record Serves (r : Repository) (p : PairId) : Type 0 where
  pub idle : r.Db → Bool
  pub locked : r.Mutex → r.Db → Bool
  pub state : Answers idle idle (r.get_state p)
  pub expired : Expired r p idle
  pub acquire :
      (db : r.Db)
      → idle db ≡ true
      → (mu : r.Mutex) × ((r.acquire_lock p db).1 ≡ ok mu)
        × (locked mu (r.acquire_lock p db).0 ≡ true)
  pub locked_state : (mu : r.Mutex) → Answers (locked mu) (locked mu) (r.get_state p)
  pub locked_expired : (mu : r.Mutex) → Expired r p (locked mu)
  pub buffer : (mu : r.Mutex) → Answers (locked mu) (locked mu) (r.get_buffer p)
  pub media : (mu : r.Mutex) → Answers (locked mu) (locked mu) (r.get_attachments p)
  pub locked_write :
      (mu : r.Mutex) (st : PipelineState) → Answers (locked mu) (locked mu) (r.set_state p st)
  pub unlock : (mu : r.Mutex) (db : r.Db) → locked mu db ≡ true → idle (r.unlock mu db).0 ≡ true
  pub write : (st : PipelineState) → Answers idle idle (r.set_state p st)
  pub clear : Answers idle idle (r.clear_state p)

-- The calls that the poller and recovery make for other pairs keep the idle states of the pair.
pub record Spares (r : Repository) (p : PairId) (idle : r.Db → Bool) : Type 0 where
  pub state : (q : PairId) → IsInt64Pair q → q ≢ p → Keeps idle (r.get_state q)
  pub timer : (q : PairId) → IsInt64Pair q → q ≢ p → Keeps idle (r.timer_exists q)
  pub lock : (q : PairId) → IsInt64Pair q → q ≢ p → Keeps idle (r.acquire_lock q)
  pub buffer : (q : PairId) → IsInt64Pair q → q ≢ p → Keeps idle (r.get_buffer q)
  pub media : (q : PairId) → IsInt64Pair q → q ≢ p → Keeps idle (r.get_attachments q)
  pub write :
      (q : PairId) (st : PipelineState) → IsInt64Pair q → q ≢ p → Keeps idle (r.set_state q st)
  pub unlock : (mu : r.Mutex) → Keeps idle (r.unlock mu)
  pub scan : (n : ℕ) → Keeps idle (r.scan_states n)

-- The goroutine that runs the turn of an entry on a cell.
abbrev pub turn_of : PairId → Entry → Cell → AiTask
turn_of p e v = entry_task p e (Debounce.join v.buffer) v.media

-- The turn is in the AI stage, and one more goroutine runs it, on all the text and media that are
-- buffered.
pub record Launched {Db : Type 0} (view : Db → PairId → Cell) (p : PairId) (e : Entry)
    (s t : Service Db) : Type 0 where
  pub stage : (view t.db p).state ≡ some (bare_state Stage.ai s.now)
  pub task : t.ai_tasks ≡ s.ai_tasks ++ (turn_of p e (view s.db p) ∷ [])

module _ (r : Repository) (c : Contract r) (p : PairId) (serves : Serves r p) where
  get_buffer-Answers :
      (mu : r.Mutex) → Answers (serves.locked mu) (serves.locked mu) (Debounce.get_buffer r p)
  unfolding Debounce.get_buffer
  get_buffer-Answers mu db h =
      let (kept, entries, e) = serves.buffer mu db h in
      (ground arith, Debounce.join entries, ground arith)

  advance_locked-Launched :
      (mu : r.Mutex) (e : Entry) (s : S r)
      → serves.locked mu s.db ≡ true
      → lookup (pair_key p) s.entries ≡ some e
      → in_debounce (c.view s.db p).state ≡ true
      → (serves.locked mu (advance_locked r p s).0.db ≡ true)
        × Launched c.view p e s (advance_locked r p s).0
  unfolding advance_locked launch_ai_stage Debounce.get_attachments
  advance_locked-Launched mu e s taken found waits =
      let g = r.get_state p s.db in
      let x = r.timer_exists p g.0 in
      let b = Debounce.get_buffer r p x.0 in
      let a = r.get_attachments p b.0 in
      let w = r.set_state p (bare_state Stage.ai s.now) a.0 in
      let (taken_g, o, eg) = serves.locked_state mu s.db taken in
      let read = c.get_state_value p s.db o eg in
      let (taken_x, ex) = serves.locked_expired mu g.0 taken_g in
      let (taken_b, text, eb) = get_buffer-Answers mu x.0 taken_x in
      let (taken_a, atts, ea) = serves.media mu b.0 taken_b in
      let (taken_w, done, ew) = serves.locked_write mu (bare_state Stage.ai s.now) a.0 taken_a in
      let written = (c.set_state_writes p (bare_state Stage.ai s.now)).here a.0 in
      let kept_b = get_buffer-view r c p p x.0 in
      let kept_x = c.timer_exists_reads p g.0 p in
      let kept_g = c.get_state_reads p s.db p in
      (
        ground (arith, read, ex),
        record {
          stage = ground (arith, read, ex, written);
          task = ground (
            arith,
            read,
            ex,
            get_buffer-join r c p x.0 text eb,
            c.get_attachments_value p b.0 atts ea,
            kept_b,
            kept_x,
            kept_g,
          );
        },
      )

  -- When the timer of a waiting turn has expired and its lock is free, `advanceToAI` moves it to the AI
  -- stage, launches its goroutine, and releases the lock.
  pub advance-Launched :
      (e : Entry) (s : S r)
      → serves.idle s.db ≡ true
      → lookup (pair_key p) s.entries ≡ some e
      → in_debounce (c.view s.db p).state ≡ true
      → (serves.idle (advance_to_ai r p s).db ≡ true) × Launched c.view p e s (advance_to_ai r p s)
  unfolding advance_to_ai advance_outcome
  advance-Launched e s idle found waits =
      let a = r.acquire_lock p s.db in
      let u = record s { db = a.0 } in
      let same = c.acquire_lock_reads p s.db p in
      let (mu, held, taken) = serves.acquire s.db idle in
      let (kept, l) =
        advance_locked-Launched mu e u taken found
          (ap (λ (v : Cell). in_debounce v.state) same ∙ waits) in
      let t = (advance_locked r p u).0 in
      let freed = c.unlock_reads mu t.db p in
      let free = serves.unlock mu t.db kept in
      (
        ground arith,
        record { stage = ground (arith, l.stage, freed); task = ground (arith, l.task, same) },
      )
