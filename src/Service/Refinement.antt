-- ===== src/Service/Refinement.antt =====
-- `Process` against an abstract machine on the cell of one pair.
use evo_bot_runtime.Prelude.{
  ℕ, Option, none, some, ok, ◌≡◌, refl, arith, inl, inr, Result-cases, if◌then◌else◌,
}
use evo_bot_runtime.Model.{PairId, Stage, PipelineState, MessageEvent}
use evo_bot_runtime.Repository.{Repository, Cell, Contract, stored, empty_cell}
use evo_bot_runtime.Debounce
use evo_bot_runtime.Debounce.Laws.{add_message, start-view, reset-view, get_buffer-view}
use evo_bot_runtime.Service.State.{Service, pair_of, cancel_pair}
use evo_bot_runtime.Service.Process.{
  S, is_zero, bare_state, debounce_state, start_debounce, skip_debounce, reset_debounce, begin_turn,
  first_turn, interrupt, by_stage, by_state, process_locked, process, launch_ai_stage,
}

-- the state that a new turn leaves in the store
abbrev pub turn_state : MessageEvent → ℕ → PipelineState
turn_state ev now =
    if is_zero ev.bot_config.debounce_time
    then bare_state Stage.ai now
    else stored (debounce_state ev now)

abbrev pub begin_cell : MessageEvent → ℕ → Cell → Cell
begin_cell ev now c = record (add_message ev.message_content ev.attachments c) {
  state = some (turn_state ev now);
}

abbrev pub stage_cell : Stage → MessageEvent → ℕ → Cell → Cell
stage_cell Stage.incoming ev now c = begin_cell ev now c
stage_cell Stage.debounce ev now c = add_message ev.message_content ev.attachments c
stage_cell Stage.ai ev now c = begin_cell ev now empty_cell
stage_cell Stage.dispatch ev now c = begin_cell ev now empty_cell
stage_cell Stage.done ev now c = c
stage_cell (Stage.other name) ev now c = c

abbrev pub state_cell : Option PipelineState → MessageEvent → ℕ → Cell → Cell
state_cell none ev now c = begin_cell ev now c
state_cell (some st) ev now c = stage_cell st.stage ev now c

-- The abstract machine: a new message opens a turn on what is buffered if no turn is under way, joins
-- a turn that is being debounced, and replaces one that is past debouncing.
abbrev pub message_cell : MessageEvent → ℕ → Cell → Cell
message_cell ev now c = state_cell c.state ev now c

pub cancel_pair-db :
    {Db : Type 0} (p : PairId) (s : Service Db)
    → ((cancel_pair p s).db ≡ s.db) × ((cancel_pair p s).now ≡ s.now)
unfolding cancel_pair
cancel_pair-db p s = ground arith

module _ (r : Repository) (c : Contract r) (ev : MessageEvent) where
  start_debounce-cell :
      (s : S r)
      → (start_debounce r ev s).1 ≡ ok tt
      → c.view (start_debounce r ev s).0.db (pair_of ev)
        ≡ record (add_message ev.message_content ev.attachments (c.view s.db (pair_of ev))) {
          state = some (stored (debounce_state ev s.now));
        }
  unfolding start_debounce
  start_debounce-cell s h =
      let d = Debounce.start r (pair_of ev) ev.message_content ev.attachments ev.bot_config s.db in
      ground (
        arith,
        start-view r c (pair_of ev) ev.message_content ev.attachments ev.bot_config s.db,
        (c.set_state_writes (pair_of ev) (debounce_state ev s.now)).here d.0,
      )

  skip_debounce-cell :
      (s : S r)
      → (skip_debounce r ev s).1 ≡ ok tt
      → c.view (skip_debounce r ev s).0.db (pair_of ev)
        ≡ record (add_message ev.message_content ev.attachments (c.view s.db (pair_of ev))) {
          state = some (bare_state Stage.ai s.now);
        }
  unfolding skip_debounce launch_ai_stage Debounce.get_attachments
  skip_debounce-cell s h =
      let d = Debounce.start r (pair_of ev) ev.message_content ev.attachments ev.bot_config s.db in
      let b = Debounce.get_buffer r (pair_of ev) d.0 in
      let a = r.get_attachments (pair_of ev) b.0 in
      ground (
        arith,
        start-view r c (pair_of ev) ev.message_content ev.attachments ev.bot_config s.db,
        get_buffer-view r c (pair_of ev) (pair_of ev) d.0,
        c.get_attachments_reads (pair_of ev) b.0 (pair_of ev),
        (c.set_state_writes (pair_of ev) (bare_state Stage.ai s.now)).here a.0,
      )

  begin_turn-cell :
      (s : S r)
      → (begin_turn r ev s).1 ≡ ok tt
      → c.view (begin_turn r ev s).0.db (pair_of ev)
        ≡ begin_cell ev s.now (c.view s.db (pair_of ev))
  unfolding begin_turn
  begin_turn-cell s h = ground (arith, start_debounce-cell s, skip_debounce-cell s)

  first_turn-cell :
      (s : S r)
      → (first_turn r ev s).1 ≡ ok tt
      → c.view (first_turn r ev s).0.db (pair_of ev)
        ≡ begin_cell ev s.now (c.view s.db (pair_of ev))
  unfolding first_turn
  first_turn-cell s h =
      let t = cancel_pair (pair_of ev) s in
      ground (arith, begin_turn-cell t, cancel_pair-db (pair_of ev) s)

  interrupt-cell :
      (s : S r)
      → (interrupt r ev s).1 ≡ ok tt
      → c.view (interrupt r ev s).0.db (pair_of ev) ≡ begin_cell ev s.now empty_cell
  unfolding interrupt
  interrupt-cell s h =
      let t = cancel_pair (pair_of ev) s in
      let u = record t { db = (r.clear_state (pair_of ev) t.db).0 } in
      ground (
        arith,
        begin_turn-cell u,
        cancel_pair-db (pair_of ev) s,
        (c.clear_state_writes (pair_of ev)).here t.db,
      )

  reset_debounce-cell :
      (s : S r)
      → (reset_debounce r ev s).1 ≡ ok tt
      → c.view (reset_debounce r ev s).0.db (pair_of ev)
        ≡ add_message ev.message_content ev.attachments (c.view s.db (pair_of ev))
  unfolding reset_debounce
  reset_debounce-cell s h =
      ground
        (arith, reset-view r c (pair_of ev) ev.message_content ev.attachments ev.bot_config s.db)

  by_stage-cell :
      (st : Stage) (s : S r)
      → (by_stage r st ev s).1 ≡ ok tt
      → c.view (by_stage r st ev s).0.db (pair_of ev)
        ≡ stage_cell st ev s.now (c.view s.db (pair_of ev))
  by_stage-cell Stage.incoming s h = first_turn-cell s h
  by_stage-cell Stage.debounce s h = reset_debounce-cell s h
  by_stage-cell Stage.ai s h = interrupt-cell s h
  by_stage-cell Stage.dispatch s h = interrupt-cell s h
  by_stage-cell Stage.done s h = refl
  by_stage-cell (Stage.other name) s h = refl

  by_state-cell :
      (o : Option PipelineState) (s : S r)
      → (by_state r o ev s).1 ≡ ok tt
      → c.view (by_state r o ev s).0.db (pair_of ev)
        ≡ state_cell o ev s.now (c.view s.db (pair_of ev))
  by_state-cell none s h = first_turn-cell s h
  by_state-cell (some st) s h = by_stage-cell st.stage s h

  process_locked-cell :
      (s : S r)
      → (process_locked r ev s).1 ≡ ok tt
      → c.view (process_locked r ev s).0.db (pair_of ev)
        ≡ message_cell ev s.now (c.view s.db (pair_of ev))
  unfolding process_locked
  process_locked-cell s h =
      let call = r.get_state (pair_of ev) s.db in
      elim (Result-cases call.1) [
        | inl (o, e) ↦
            let t = record s { db = call.0 } in
            ground (
              arith,
              by_state-cell o t,
              c.get_state_value (pair_of ev) s.db o e,
              c.get_state_reads (pair_of ev) s.db (pair_of ev),
            )
        | inr (x, e) ↦ ground arith
      ]

  -- Whenever `Process` reports no error, the cell of the pair is what the abstract machine makes of it
  -- and the message: the message text and media stand last in the buffers, behind the earlier ones
  -- if the turn was not past debouncing; the state is the new stage, with all that a restart needs if
  -- the turn is debounced; and a state that is done or unknown ignores the message.
  pub process-cell :
      (s : S r)
      → (process r ev s).1 ≡ ok tt
      → c.view (process r ev s).0.db (pair_of ev) ≡ message_cell ev s.now (c.view s.db (pair_of ev))
  unfolding process
  process-cell s h =
      let call = r.acquire_lock (pair_of ev) s.db in
      elim (Result-cases call.1) [
        | inl (mu, e) ↦
            let t = record s { db = call.0 } in
            ground (
              arith,
              process_locked-cell t,
              c.acquire_lock_reads (pair_of ev) s.db (pair_of ev),
              c.unlock_reads mu (process_locked r ev t).0.db (pair_of ev),
            )
        | inr (x, e) ↦ ground arith
      ]
