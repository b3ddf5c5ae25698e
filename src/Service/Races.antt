-- ===== src/Service/Races.antt =====
-- How the goroutine of a turn ends, and what happens when it ends late: after a newer message of
-- the pair was taken.
use evo_bot_runtime.Prelude.{true, Option, none, some, ok, err, ◌≡◌, ap, ◌∙◌, arith}
use evo_bot_runtime.Prelude.Text.{Text, text_eq_refl}
use evo_bot_runtime.Prelude.Assoc.{lookup, lookup-erase}
use evo_bot_runtime.Errors.{Err, Sentinel, is}
use evo_bot_runtime.Model.{Stage}
use evo_bot_runtime.Keys.{pair_key}
use evo_bot_runtime.Repository.{Repository, Contract, empty_cell}
use evo_bot_runtime.Service.State.{AiTask, DispatchTask}
use evo_bot_runtime.Service.Process.{
  S, in_debounce, bare_state, advance_to_ai, clear_state_with_log,
}
use evo_bot_runtime.Service.Once.{advance-idle}
use evo_bot_runtime.Service.Stages.{Outcome, returns, finish_ai, finish_dispatch}

module _ (r : Repository) (c : Contract r) where
  -- The end of an AI stage with an answer, and of its dispatch with an error.
  abbrev pub answered_then_failed :
      Option Text → AiTask → Text → Outcome (Unit {0}) → DispatchTask → Err → S r → S r
  answered_then_failed env t content sent d e s =
      finish_dispatch r d (returns (err e)) (finish_ai r env t (returns (ok content)) sent s)

  answered_interrupted :
      (env : Option Text) (t : AiTask) (content : Text) (sent : Outcome (Unit {0}))
      (d : DispatchTask) (e : Err) (s : S r)
      → (r.set_state t.pair (bare_state Stage.dispatch s.now) s.db).1 ≡ ok tt
      → is e Sentinel.dispatch_interrupted ≡ true
      → let u = answered_then_failed env t content sent d e s in
        ((c.view u.db t.pair).state ≡ some (bare_state Stage.dispatch s.now))
        × (u.entries ≡ s.entries)
        × (u.ai_tasks ≡ s.ai_tasks)
  unfolding finish_ai finish_dispatch
  answered_interrupted env t content sent d e s set int =
      let w = (c.set_state_writes t.pair (bare_state Stage.dispatch s.now)).here s.db set in
      (ground (arith, w), ground arith, ground arith)

  -- A turn whose answer arrives late: in whatever state a newer message has left the pair, the success
  -- of the AI stage overwrites it by the dispatch stage; if the dispatch is then interrupted, the pair
  -- keeps that stage and the entry it had, and `advanceToAI` launches nothing for it.
  pub late_answer-strands :
      (env : Option Text) (t : AiTask) (content : Text) (sent : Outcome (Unit {0}))
      (d : DispatchTask) (e : Err) (s : S r)
      → (r.set_state t.pair (bare_state Stage.dispatch s.now) s.db).1 ≡ ok tt
      → is e Sentinel.dispatch_interrupted ≡ true
      → let u = answered_then_failed env t content sent d e s in
        ((c.view u.db t.pair).state ≡ some (bare_state Stage.dispatch s.now))
        × (u.entries ≡ s.entries)
        × ((advance_to_ai r t.pair u).ai_tasks ≡ s.ai_tasks)
  late_answer-strands env t content sent d e s set int =
      let u = answered_then_failed env t content sent d e s in
      let (state, entries, tasks) = answered_interrupted env t content sent d e s set int in
      (state, entries, (advance-idle r c t.pair u (ap in_debounce state)).0 ∙ tasks)

  -- The completion of a dispatch removes whatever the pair holds at that moment, also what a message
  -- that was taken since the last part was sent has put there: if ClearState succeeds, its cell
  -- is empty and it has no entry.
  pub late_completion-erases :
      (t : DispatchTask) (s : S r)
      → (r.clear_state t.pair (r.set_state t.pair (bare_state Stage.done s.now) s.db).0).1 ≡ ok tt
      → let u = finish_dispatch r t (returns (ok tt)) s in
        (c.view u.db t.pair ≡ empty_cell) × (lookup (pair_key t.pair) u.entries ≡ none)
  unfolding finish_dispatch clear_state_with_log
  late_completion-erases t s clear =
      let db = (r.set_state t.pair (bare_state Stage.done s.now) s.db).0 in
      let key = pair_key t.pair in
      (
        ground (arith, (c.clear_state_writes t.pair).here db clear),
        ground (arith, text_eq_refl key, lookup-erase key key s.entries),
      )
