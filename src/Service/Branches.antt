-- ===== src/Service/Branches.antt =====
-- The branches of `Process` and what each does to the memory of the service.
use evo_bot_runtime.Prelude.{
  ℕ, Bool, true, false, Option, none, some, ok, err, ◌≡◌, refl, arith, ◌⊎◌, inl, inr, Result-cases,
}
use evo_bot_runtime.Prelude.Text.{codes, text_eq_refl}
use evo_bot_runtime.Prelude.Assoc.{lookup, lookup-erase}
use evo_bot_runtime.Errors.{Err}
use evo_bot_runtime.Model.{PairId, Stage, PipelineState, MessageEvent}
use evo_bot_runtime.Keys.{pair_key}
use evo_bot_runtime.Repository.{Repository, Cell, Contract}
use evo_bot_runtime.Service.State.{Service, Entry, pair_of, cancel_pair}
use evo_bot_runtime.Service.Process.{
  S, start_debounce, skip_debounce, reset_debounce, begin_turn, first_turn, interrupt, by_stage,
  by_state, launch_ai_stage,
}
use evo_bot_runtime.Service.Opening.{Opened, begin_turn-Opened, begin_turn-Abandoned}

-- The stages in which a message opens a turn.
abbrev pub opens_stage : Stage → Bool
opens_stage Stage.incoming = true
opens_stage Stage.debounce = false
opens_stage Stage.ai = true
opens_stage Stage.dispatch = true
opens_stage Stage.done = false
opens_stage (Stage.other name) = false

abbrev pub opens_turn : Option PipelineState → Bool
opens_turn none = true
opens_turn (some st) = opens_stage st.stage

-- A turn was opened, and the context of the turn before it, if any, is cancelled.
pub record Replaced {Db : Type 0} (view : Db → PairId → Cell) (ev : MessageEvent) (s t : Service Db)
    : Type 0 where
  pub opened : Opened view ev s t
  pub previous :
      (e : Entry) → lookup (pair_key (pair_of ev)) s.entries ≡ some e → t.cancelled e.ctx ≡ true

-- The failures of `Process`: what they leave of the pair.
pub record Failed {Db : Type 0} (ev : MessageEvent) (s t : Service Db) : Type 0 where
  pub tasks : t.ai_tasks ≡ s.ai_tasks
  pub entry :
      (lookup (pair_key (pair_of ev)) t.entries ≡ lookup (pair_key (pair_of ev)) s.entries)
      ⊎ (lookup (pair_key (pair_of ev)) t.entries ≡ none)

module _ (r : Repository) (ev : MessageEvent) where
  -- `interrupt` is a failure of ClearState, or a turn that begins on the cleared store.
  abbrev pub cleared : S r → S r
  cleared s =
      let t = cancel_pair (pair_of ev) s in record t { db = (r.clear_state (pair_of ev) t.db).0 }

  pub interrupt-cases :
      (s : S r)
      → ((x : Err) × (interrupt r ev s ≡ (cleared s, err x)))
        ⊎ (interrupt r ev s ≡ begin_turn r ev (cleared s))
  unfolding interrupt
  interrupt-cases s =
      elim (Result-cases (r.clear_state (pair_of ev) (cancel_pair (pair_of ev) s).db).1) [
        | inl (done, e) ↦ inr (ground arith)
        | inr (x, e) ↦ inl (Err.wrapped (codes "pipeline.process.clear") x, ground arith)
      ]

module _ (r : Repository) (c : Contract r) (ev : MessageEvent) where
  start_debounce-keeps :
      (s : S r) (d : ℕ) → s.cancelled d ≡ true → (start_debounce r ev s).0.cancelled d ≡ true
  unfolding start_debounce
  start_debounce-keeps s d h = ground arith

  skip_debounce-keeps :
      (s : S r) (d : ℕ) → s.cancelled d ≡ true → (skip_debounce r ev s).0.cancelled d ≡ true
  unfolding skip_debounce launch_ai_stage
  skip_debounce-keeps s d h = ground arith

  begin_turn-keeps :
      (s : S r) (d : ℕ) → s.cancelled d ≡ true → (begin_turn r ev s).0.cancelled d ≡ true
  unfolding begin_turn
  begin_turn-keeps s d h = ground (arith, start_debounce-keeps s d, skip_debounce-keeps s d)

  cancel_pair-cancels :
      (p : PairId) (s : S r) (e : Entry)
      → lookup (pair_key p) s.entries ≡ some e
      → (cancel_pair p s).cancelled e.ctx ≡ true
  unfolding cancel_pair
  cancel_pair-cancels p s e h = ground arith

  cancel_pair-entry : (p : PairId) (s : S r) → lookup (pair_key p) (cancel_pair p s).entries ≡ none
  unfolding cancel_pair
  cancel_pair-entry p s =
      ground (arith, text_eq_refl (pair_key p), lookup-erase (pair_key p) (pair_key p) s.entries)

  cancel_pair-rest :
      (p : PairId) (s : S r)
      → ((cancel_pair p s).fresh ≡ s.fresh) × ((cancel_pair p s).ai_tasks ≡ s.ai_tasks)
  unfolding cancel_pair
  cancel_pair-rest p s = ground arith

  -- The two ends of an opened turn may be moved to states that agree on what it speaks of.
  pub Opened-between :
      (s u t w : S r)
      → u.fresh ≡ s.fresh
      → u.ai_tasks ≡ s.ai_tasks
      → w.entries ≡ t.entries
      → w.fresh ≡ t.fresh
      → w.ai_tasks ≡ t.ai_tasks
      → c.view w.db (pair_of ev) ≡ c.view t.db (pair_of ev)
      → Opened c.view ev u t
      → Opened c.view ev s w
  Opened-between s u t w f a we wf wa v o = record {
    entry = ground arith;
    context = ground arith;
    waits = λ z. ground (arith, o.waits z);
    runs = λ z.
        let (atts, media, tasks) = o.runs z in (atts, ground (arith, media), ground (arith, tasks));
  }

  first_turn-Replaced :
      (s : S r) → (first_turn r ev s).1 ≡ ok tt → Replaced c.view ev s (first_turn r ev s).0
  unfolding first_turn
  first_turn-Replaced s h =
      let t = cancel_pair (pair_of ev) s in
      let same = cancel_pair-rest (pair_of ev) s in
      let w = (begin_turn r ev t).0 in
      record {
        opened =
            Opened-between s t w w same.0 same.1 refl refl refl refl (begin_turn-Opened r c ev t h);
        previous = λ e f. begin_turn-keeps t e.ctx (cancel_pair-cancels (pair_of ev) s e f);
      }

  first_turn-Failed :
      (s : S r) (e : Err) → (first_turn r ev s).1 ≡ err e → Failed ev s (first_turn r ev s).0
  unfolding first_turn
  first_turn-Failed s e h =
      let t = cancel_pair (pair_of ev) s in
      let a = begin_turn-Abandoned r c ev t e h in
      ground (arith, a, cancel_pair-rest (pair_of ev) s)

  interrupt-Replaced :
      (s : S r) → (interrupt r ev s).1 ≡ ok tt → Replaced c.view ev s (interrupt r ev s).0
  interrupt-Replaced s h = elim (interrupt-cases r ev s) [
    | inl (x, e) ↦ absurd (cc e)
    | inr e ↦
        let same = cancel_pair-rest (pair_of ev) s in
        let w = (begin_turn r ev (cleared r ev s)).0 in
        let o : Opened c.view ev s w =
          Opened-between s (cleared r ev s) w w same.0 same.1 refl refl refl refl
            (begin_turn-Opened r c ev (cleared r ev s) (rw e at h)) in
        rw e (record {
          opened = o;
          previous = λ x f.
              begin_turn-keeps (cleared r ev s) x.ctx (cancel_pair-cancels (pair_of ev) s x f);
        })
  ]

  interrupt-Failed :
      (s : S r) (e : Err) → (interrupt r ev s).1 ≡ err e → Failed ev s (interrupt r ev s).0
  interrupt-Failed s x h = elim (interrupt-cases r ev s) [
    | inl (y, e) ↦ rw e (record {
      tasks = (cancel_pair-rest (pair_of ev) s).1;
      entry = inr (cancel_pair-entry (pair_of ev) s);
    })
    | inr e ↦
        let a = begin_turn-Abandoned r c ev (cleared r ev s) x (rw e at h) in
        rw e (ground (arith, a, cancel_pair-rest (pair_of ev) s))
  ]

  by_stage-Replaced :
      (g : Stage) (s : S r)
      → opens_stage g ≡ true
      → (by_stage r g ev s).1 ≡ ok tt
      → Replaced c.view ev s (by_stage r g ev s).0
  by_stage-Replaced Stage.incoming s z h = first_turn-Replaced s h
  by_stage-Replaced Stage.ai s z h = interrupt-Replaced s h
  by_stage-Replaced Stage.dispatch s z h = interrupt-Replaced s h
  by_stage-Replaced Stage.debounce s z h = cc
  by_stage-Replaced Stage.done s z h = cc
  by_stage-Replaced (Stage.other name) s z h = cc

  pub by_state-Replaced :
      (o : Option PipelineState) (s : S r)
      → opens_turn o ≡ true
      → (by_state r o ev s).1 ≡ ok tt
      → Replaced c.view ev s (by_state r o ev s).0
  by_state-Replaced none s z h = first_turn-Replaced s h
  by_state-Replaced (some st) s z h = by_stage-Replaced st.stage s z h

  reset-rest :
      (s : S r)
      → ((reset_debounce r ev s).0.ai_tasks ≡ s.ai_tasks)
        × ((reset_debounce r ev s).0.entries ≡ s.entries)
  unfolding reset_debounce
  reset-rest s = ground arith

  by_stage-Failed :
      (g : Stage) (s : S r) (x : Err)
      → (by_stage r g ev s).1 ≡ err x
      → Failed ev s (by_stage r g ev s).0
  by_stage-Failed Stage.incoming s x h = first_turn-Failed s x h
  by_stage-Failed Stage.debounce s x h = ground (arith, reset-rest s)
  by_stage-Failed Stage.ai s x h = interrupt-Failed s x h
  by_stage-Failed Stage.dispatch s x h = interrupt-Failed s x h
  by_stage-Failed Stage.done s x h = cc
  by_stage-Failed (Stage.other name) s x h = cc

  pub by_state-Failed :
      (o : Option PipelineState) (s : S r) (x : Err)
      → (by_state r o ev s).1 ≡ err x
      → Failed ev s (by_state r o ev s).0
  by_state-Failed none s x h = first_turn-Failed s x h
  by_state-Failed (some st) s x h = by_stage-Failed st.stage s x h
