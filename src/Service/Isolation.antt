-- ===== src/Service/Isolation.antt =====
-- `Process` on one pair and the cells of the others.
use evo_bot_runtime.Prelude.{Option, none, some, ◌≡◌, ◌≢◌, refl, arith, inl, inr, Result-cases}
use evo_bot_runtime.Model.{PairId, Stage, PipelineState, MessageEvent}
use evo_bot_runtime.Keys.RoundTrip.{IsInt64Pair}
use evo_bot_runtime.Repository.{Repository, Contract}
use evo_bot_runtime.Debounce
use evo_bot_runtime.Debounce.Laws.{start-elsewhere, reset-elsewhere, get_buffer-view}
use evo_bot_runtime.Service.State.{pair_of, store_entry, cancel_pair, abandon}
use evo_bot_runtime.Service.Process.{
  S, bare_state, debounce_state, start_debounce, skip_debounce, reset_debounce, begin_turn,
  first_turn, interrupt, by_stage, by_state, process_locked, process, launch_ai_stage,
}
use evo_bot_runtime.Service.Refinement.{cancel_pair-db}

module _ (r : Repository) (c : Contract r) (ev : MessageEvent) (q : PairId)
    (hp : IsInt64Pair (pair_of ev)) (hq : IsInt64Pair q) (ne : pair_of ev ≢ q) where
  -- The cell of `q` is the same in both states.
  abbrev Same : S r → S r → Type 0
  Same s t = c.view t.db q ≡ c.view s.db q

  start_debounce-Same : (s : S r) → Same s (start_debounce r ev s).0
  unfolding start_debounce store_entry abandon
  start_debounce-Same s =
      let d = Debounce.start r (pair_of ev) ev.message_content ev.attachments ev.bot_config s.db in
      ground (
        arith,
        start-elsewhere r c (pair_of ev) q ev.message_content ev.attachments ev.bot_config s.db hp
            hq ne,
        (c.set_state_writes (pair_of ev) (debounce_state ev s.now)).elsewhere d.0 q hp hq ne,
      )

  skip_debounce-Same : (s : S r) → Same s (skip_debounce r ev s).0
  unfolding skip_debounce launch_ai_stage Debounce.get_attachments store_entry abandon
  skip_debounce-Same s =
      let d = Debounce.start r (pair_of ev) ev.message_content ev.attachments ev.bot_config s.db in
      let b = Debounce.get_buffer r (pair_of ev) d.0 in
      let a = r.get_attachments (pair_of ev) b.0 in
      ground (
        arith,
        start-elsewhere r c (pair_of ev) q ev.message_content ev.attachments ev.bot_config s.db hp
            hq ne,
        get_buffer-view r c (pair_of ev) q d.0,
        c.get_attachments_reads (pair_of ev) b.0 q,
        (c.set_state_writes (pair_of ev) (bare_state Stage.ai s.now)).elsewhere a.0 q hp hq ne,
      )

  reset_debounce-Same : (s : S r) → Same s (reset_debounce r ev s).0
  unfolding reset_debounce
  reset_debounce-Same s = ground (
    arith,
    reset-elsewhere r c (pair_of ev) q ev.message_content ev.attachments ev.bot_config s.db hp hq
        ne,
  )

  begin_turn-Same : (s : S r) → Same s (begin_turn r ev s).0
  unfolding begin_turn
  begin_turn-Same s = ground (arith, start_debounce-Same s, skip_debounce-Same s)

  first_turn-Same : (s : S r) → Same s (first_turn r ev s).0
  unfolding first_turn
  first_turn-Same s =
      let t = cancel_pair (pair_of ev) s in
      ground (arith, begin_turn-Same t, cancel_pair-db (pair_of ev) s)

  interrupt-Same : (s : S r) → Same s (interrupt r ev s).0
  unfolding interrupt
  interrupt-Same s =
      let t = cancel_pair (pair_of ev) s in
      let u = record t { db = (r.clear_state (pair_of ev) t.db).0 } in
      ground (
        arith,
        begin_turn-Same u,
        cancel_pair-db (pair_of ev) s,
        (c.clear_state_writes (pair_of ev)).elsewhere t.db q hp hq ne,
      )

  by_stage-Same : (g : Stage) (s : S r) → Same s (by_stage r g ev s).0
  by_stage-Same Stage.incoming s = first_turn-Same s
  by_stage-Same Stage.debounce s = reset_debounce-Same s
  by_stage-Same Stage.ai s = interrupt-Same s
  by_stage-Same Stage.dispatch s = interrupt-Same s
  by_stage-Same Stage.done s = refl
  by_stage-Same (Stage.other name) s = refl

  by_state-Same : (o : Option PipelineState) (s : S r) → Same s (by_state r o ev s).0
  by_state-Same none s = first_turn-Same s
  by_state-Same (some st) s = by_stage-Same st.stage s

  process_locked-Same : (s : S r) → Same s (process_locked r ev s).0
  unfolding process_locked
  process_locked-Same s =
      let call = r.get_state (pair_of ev) s.db in
      let reads = c.get_state_reads (pair_of ev) s.db q in
      elim (Result-cases call.1) [
        | inl (o, e) ↦ ground (arith, by_state-Same o (record s { db = call.0 }), reads)
        | inr (x, e) ↦ ground (arith, reads)
      ]

  -- `Process` for a message of one pair of int64 ids leaves the state, the text buffer and the media
  -- of every other such pair as they are, also when it fails halfway.
  pub process-elsewhere : (s : S r) → c.view (process r ev s).0.db q ≡ c.view s.db q
  unfolding process
  process-elsewhere s =
      let call = r.acquire_lock (pair_of ev) s.db in
      let t = record s { db = call.0 } in
      let reads = c.acquire_lock_reads (pair_of ev) s.db q in
      elim (Result-cases call.1) [
        | inl (mu, e) ↦
            ground (
              arith,
              process_locked-Same t,
              reads,
              c.unlock_reads mu (process_locked r ev t).0.db q,
            )
        | inr (x, e) ↦ ground (arith, reads)
      ]
