-- ===== src/Service/Once.antt =====
-- `advanceToAI`: what it launches, and what it does when it runs again.
use evo_bot_runtime.Prelude.{
  true, false, not, ◌&&◌, List, [], ◌∷◌, ◌++◌, some, Result, ok, err, ◌≡◌, ◌≢◌, refl, ap, ◌∙◌,
  arith, ◌⊎◌, inl, inr, Bool-cases, Option-cases, Result-cases,
}
use evo_bot_runtime.Prelude.Text.{Text}
use evo_bot_runtime.Prelude.Assoc.{lookup}
use evo_bot_runtime.Errors.{Err}
use evo_bot_runtime.Model.{PairId, Stage, Attachment}
use evo_bot_runtime.Keys.{pair_key}
use evo_bot_runtime.Repository.{Repository, Cell, Contract}
use evo_bot_runtime.Debounce
use evo_bot_runtime.Debounce.Laws.{get_buffer-join}
use evo_bot_runtime.Service.State.{Service, Entry, AiTask}
use evo_bot_runtime.Service.Process.{
  S, in_debounce, bare_state, release, launch_ai_stage, advance_locked, advance_to_ai,
}

-- The goroutine that `launchAIStage` starts for an entry.
abbrev pub entry_task : PairId → Entry → Text → List Attachment → AiTask
entry_task p e buffer atts = record {
  ctx = e.ctx;
  pair = p;
  buffer = buffer;
  attachments = atts;
  cfg = e.cfg;
  postback_url = e.postback_url;
}

-- The turn was waiting; now its stage is the AI stage, which runs on all the buffered text under the
-- context and the settings of the entry.
pub record Advanced {Db : Type 0} (view : Db → PairId → Cell) (p : PairId) (s t : Service Db)
    : Type 0 where
  pub waited : in_debounce (view s.db p).state ≡ true
  pub stage : (view t.db p).state ≡ some (bare_state Stage.ai s.now)
  pub task :
      (e : Entry) × (atts : List Attachment) × (lookup (pair_key p) s.entries ≡ some e)
      × (t.ai_tasks ≡ s.ai_tasks ++ (entry_task p e (Debounce.join (view s.db p).buffer) atts ∷ []))

abbrev pub or_none : Result Err (List Attachment) → List Attachment
or_none (ok atts) = atts
or_none (err e) = []

module _ (r : Repository) (c : Contract r) (p : PairId) where
  advance_locked-rest :
      (s : S r)
      → ((advance_locked r p s).0.entries ≡ s.entries) × ((advance_locked r p s).0.now ≡ s.now)
  unfolding advance_locked launch_ai_stage
  advance_locked-rest s = ground arith

  -- Nothing happens to a pair whose state is not the debounce stage.
  advance_locked-idle :
      (s : S r)
      → in_debounce (c.view s.db p).state ≡ false
      → ((advance_locked r p s).0.ai_tasks ≡ s.ai_tasks)
        × (c.view (advance_locked r p s).0.db p ≡ c.view s.db p)
  unfolding advance_locked
  advance_locked-idle s h = elim (Result-cases (r.get_state p s.db).1) [
    | inl (o, e) ↦ ground (arith, c.get_state_value p s.db o e, c.get_state_reads p s.db p)
    | inr (x, e) ↦ ground (arith, c.get_state_reads p s.db p)
  ]

  advance_locked-Advanced :
      (s : S r)
      → ((advance_locked r p s).0.ai_tasks ≡ s.ai_tasks)
        ⊎ Advanced c.view p s (advance_locked r p s).0
  unfolding advance_locked launch_ai_stage Debounce.get_attachments
  advance_locked-Advanced s =
      let g = r.get_state p s.db in
      let x = r.timer_exists p g.0 in
      let b = Debounce.get_buffer r p x.0 in
      let a = r.get_attachments p b.0 in
      let w = r.set_state p (bare_state Stage.ai s.now) a.0 in
      let written = (c.set_state_writes p (bare_state Stage.ai s.now)).here a.0 in
      elim (Result-cases g.1) [
        | inr (y, e) ↦ inl (ground arith)
        | inl (o, eg) ↦ elim (Result-cases x.1) [
          | inr (y, e) ↦ inl (ground arith)
          | inl (exists, ex) ↦ elim (Result-cases b.1) [
            | inr (y, e) ↦ inl (ground arith)
            | inl (text, eb) ↦ elim (Option-cases (lookup (pair_key p) s.entries)) [
              | inl gone ↦ inl (ground arith)
              | inr (entry, el) ↦ elim (Result-cases w.1) [
                | inr (y, e) ↦ inl (ground arith)
                | inl (done, ew) ↦ elim (Bool-cases (in_debounce o && not exists)) [
                  | inr no_go ↦ inl (ground arith)
                  | inl go ↦ inr (record {
                    waited = ground (arith, c.get_state_value p s.db o eg);
                    stage = ground (arith, written);
                    task = (
                      entry,
                      or_none a.1,
                      el,
                      ground (
                        arith,
                        get_buffer-join r c p x.0 text eb,
                        c.timer_exists_reads p g.0 p,
                        c.get_state_reads p s.db p,
                      ),
                    );
                  })
                ]
              ]
            ]
          ]
        ]
      ]

  -- `advanceToAI` fails at the lock, or runs under it.
  advance-cases :
      (s : S r)
      → ((d : r.Db) × (advance_to_ai r p s ≡ record s { db = d }) × (c.view d p ≡ c.view s.db p))
        ⊎ ((mu : r.Mutex) × (let u = record s { db = (r.acquire_lock p s.db).0 } in
              advance_to_ai r p s ≡ (release r mu (advance_locked r p u)).0))
  unfolding advance_to_ai
  advance-cases s =
      let a = r.acquire_lock p s.db in
      elim (Result-cases a.1) [
        | inl (mu, e) ↦ inr (mu, ground arith)
        | inr (x, e) ↦ inl (a.0, ground arith, c.acquire_lock_reads p s.db p)
      ]

  pub advance-idle :
      (s : S r)
      → in_debounce (c.view s.db p).state ≡ false
      → ((advance_to_ai r p s).ai_tasks ≡ s.ai_tasks)
        × (c.view (advance_to_ai r p s).db p ≡ c.view s.db p)
  advance-idle s h = elim (advance-cases s) [
    | inl (d, e, v) ↦ rw e (refl, v)
    | inr (mu, e) ↦
        let u = record s { db = (r.acquire_lock p s.db).0 } in
        let same = c.acquire_lock_reads p s.db p in
        let idle = advance_locked-idle u (ap (λ (x : Cell). in_debounce x.state) same ∙ h) in
        rw e (idle.0, c.unlock_reads mu (advance_locked r p u).0.db p ∙ idle.1 ∙ same)
  ]

  -- `advanceToAI` launches nothing, or it moves a pair that waits in the debounce stage to the AI
  -- stage and launches one goroutine: for the entry of the pair and on the joined buffer.
  pub advance-Advanced :
      (s : S r)
      → ((advance_to_ai r p s).ai_tasks ≡ s.ai_tasks) ⊎ Advanced c.view p s (advance_to_ai r p s)
  advance-Advanced s = elim (advance-cases s) [
    | inl (d, e, v) ↦ inl (rw e)
    | inr (mu, e) ↦
        let u = record s { db = (r.acquire_lock p s.db).0 } in
        let same = c.acquire_lock_reads p s.db p in
        elim (advance_locked-Advanced u) [
          | inl idle ↦ inl (rw e idle)
          | inr adv ↦ inr (
              rw e (record {
                waited = rw (← same) adv.waited;
                stage =
                    ap (λ (x : Cell). x.state) (c.unlock_reads mu (advance_locked r p u).0.db p)
                    ∙ adv.stage;
                task = rw (← same) adv.task;
              }))
        ]
  ]

  -- However often the timer of a turn is seen to have expired, the turn is handed to the AI stage at
  -- most once: a second `advanceToAI` after one that launched a goroutine launches nothing.
  pub advance-advance :
      (s : S r)
      → (advance_to_ai r p s).ai_tasks ≢ s.ai_tasks
      → (advance_to_ai r p (advance_to_ai r p s)).ai_tasks ≡ (advance_to_ai r p s).ai_tasks
  advance-advance s ran = elim (advance-Advanced s) [
    | inl same ↦ absurd (ran same)
    | inr adv ↦ (advance-idle (advance_to_ai r p s) (ap in_debounce adv.stage)).0
  ]
