-- ===== src/Service/Restart.antt =====
-- The recovery of a turn that is being debounced, after a restart.
use evo_bot_runtime.Prelude.{
  ℕ, Bool, true, false, Option, none, some, Result, ok, err, ◌≡◌, refl, ap, ◌∙◌, if◌then◌else◌,
}
use evo_bot_runtime.Prelude.Text.{text_eq, text_eq_refl}
use evo_bot_runtime.Prelude.Assoc.{lookup, lookup-insert}
use evo_bot_runtime.Errors.{Err}
use evo_bot_runtime.Model.{PairId, Stage, PipelineState, MessageEvent}
use evo_bot_runtime.Keys.{pair_key}
use evo_bot_runtime.Repository.{Repository, Cell, Contract, stored, omit_empty}
use evo_bot_runtime.Service.State.{Entry, pair_of, store_entry, new_entry}
use evo_bot_runtime.Service.Process.{S, is_zero, in_debounce, debounce_state, process}
use evo_bot_runtime.Service.Recovery.{
  recover_pair, recover_found, advance_if_expired, entry_of_state,
}
use evo_bot_runtime.Service.Refinement.{process-cell, turn_state, stage_cell, state_cell}
use evo_bot_runtime.Service.Branches.{opens_turn, opens_stage}
use evo_bot_runtime.Service.Consistency.{advance-Alike}
use evo_bot_runtime.Service.Interleaving.{new_service}

-- An entry as a restart rebuilds it: the settings of the event under a new context; empty metadata
-- come back as nil.
abbrev pub rebuilt_entry : ℕ → MessageEvent → Entry
rebuilt_entry ctx ev = let e = new_entry ctx ev in record e { metadata = omit_empty ev.metadata }

module _ (r : Repository) (c : Contract r) where
  advance_if_expired-entries :
      (p : PairId) (o : Result Err Bool) (s : S r)
      → (advance_if_expired r p o s).entries ≡ s.entries
  advance_if_expired-entries p (ok false) s = (advance-Alike r p s).entries
  advance_if_expired-entries p (ok true) s = refl
  advance_if_expired-entries p (err e) s = refl

  recover_found-entry :
      (p : PairId) (st : PipelineState) (s : S r)
      → in_debounce (some st) ≡ true
      → lookup (pair_key p) s.entries ≡ none
      → lookup (pair_key p) (recover_found r p (ok (some st)) s).entries
        ≡ some (entry_of_state s.fresh st)
  unfolding store_entry
  recover_found-entry p st s z gone =
      let t = (store_entry p (λ d. entry_of_state d st) s).0 in
      let call = r.timer_exists p t.db in
      let key = pair_key p in
      rw (z, gone)
        (ap (lookup key) (advance_if_expired-entries p call.1 (record t { db = call.0 }))
          ∙ lookup-insert key key (entry_of_state s.fresh st) s.entries
          ∙ found)
    where
      found :
          (if text_eq (pair_key p) (pair_key p)
            then some (entry_of_state s.fresh st)
            else lookup (pair_key p) s.entries)
          ≡ some (entry_of_state s.fresh st)
      found = rw (text_eq_refl (pair_key p))

  stage_cell-state :
      (g : Stage) (ev : MessageEvent) (now : ℕ) (v : Cell)
      → opens_stage g ≡ true
      → (stage_cell g ev now v).state ≡ some (turn_state ev now)
  stage_cell-state Stage.incoming ev now v h = refl
  stage_cell-state Stage.debounce ev now v h = cc
  stage_cell-state Stage.ai ev now v h = refl
  stage_cell-state Stage.dispatch ev now v h = refl
  stage_cell-state Stage.done ev now v h = cc
  stage_cell-state (Stage.other name) ev now v h = cc

  state_cell-state :
      (o : Option PipelineState) (ev : MessageEvent) (now : ℕ) (v : Cell)
      → opens_turn o ≡ true
      → (state_cell o ev now v).state ≡ some (turn_state ev now)
  state_cell-state none ev now v h = refl
  state_cell-state (some st) ev now v h = stage_cell-state st.stage ev now v h

  -- A turn that `Process` has put into the debounce stage survives a restart of the service: if the
  -- state can be read, the recovery of its pair in an empty service rebuilds the entry, with the
  -- settings, the addresses, the key and the metadata of the event.
  pub recover_pair-process :
      (ev : MessageEvent) (s : S r) (now : ℕ) (o : Option PipelineState)
      → opens_turn (c.view s.db (pair_of ev)).state ≡ true
      → is_zero ev.bot_config.debounce_time ≡ false
      → (process r ev s).1 ≡ ok tt
      → (r.get_state (pair_of ev) (process r ev s).0.db).1 ≡ ok o
      → lookup
          (pair_key (pair_of ev))
          (recover_pair r (pair_of ev) (new_service r (process r ev s).0.db now)).entries
        ≡ some (rebuilt_entry 0 ev)
  unfolding recover_pair lookup
  recover_pair-process ev s now o opens waits done read =
      let p = pair_of ev in
      let u = (process r ev s).0 in
      let call = r.get_state p u.db in
      let turned =
        ap (λ (v : Cell). v.state) (process-cell r c ev s done)
        ∙ state_cell-state (c.view s.db p).state ev s.now (c.view s.db p) opens in
      let waiting : turn_state ev s.now ≡ stored (debounce_state ev s.now) = rw waits refl in
      let found : o ≡ some (stored (debounce_state ev s.now)) =
        c.get_state_value p u.db o read ∙ turned ∙ ap some waiting in
      rw (read, found)
        (recover_found-entry p (stored (debounce_state ev s.now))
          (record (new_service r u.db now) { db = call.0 }) refl refl)
