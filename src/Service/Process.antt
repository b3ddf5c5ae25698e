-- ===== src/Service/Process.antt =====
-- `Process`, its three ways to start or extend a turn, `advanceToAI`, `launchAIStage` and `Cancel`.
use evo_bot_runtime.Prelude.{
  ℕ, zero, Bool, true, false, List, [], ◌∷◌, ◌++◌, Option, none, some, Result, ok, if◌then◌else◌,
  not,
}
use evo_bot_runtime.Prelude.Int.{ℤ, pos}
use evo_bot_runtime.Prelude.Text.{Text, codes}
use evo_bot_runtime.Prelude.Float.{Sign}
use evo_bot_runtime.Prelude.Assoc.{lookup}
use evo_bot_runtime.Errors.{Err, Sentinel}
use evo_bot_runtime.Model.{PairId, BotConfig, Stage, PipelineState, MessageEvent, Attachment}
use evo_bot_runtime.Keys.{pair_key}
use evo_bot_runtime.Monad.{M, pure, fail, handle, context, modify, ◌>>=◌, ◌>>◌}
use evo_bot_runtime.Repository.{Repository}
use evo_bot_runtime.Debounce
use evo_bot_runtime.Service.State.{
  Service, Entry, pair_of, lift, new_entry, store_entry, cancel_pair, abandon,
}

abbrev pub empty_config : BotConfig
empty_config = record {
  debounce_time = pos 0;
  message_signature = [];
  text_segmentation_enabled = false;
  text_segmentation_limit = pos 0;
  text_segmentation_min_size = pos 0;
  delay_per_character = record { sign = Sign.at_zero; times_trunc = λ n. 0 };
}

-- `&model.PipelineState{Stage: stage, CreatedAt: time.Now()}`
abbrev pub bare_state : Stage → ℕ → PipelineState
bare_state stage now = record {
  stage = stage;
  created_at = now;
  bot_config = empty_config;
  postback_url = [];
  agent_bot_id = [];
  api_key = [];
  outgoing_url = [];
  metadata = none;
}

abbrev pub debounce_state : MessageEvent → ℕ → PipelineState
debounce_state ev now = record {
  stage = Stage.debounce;
  created_at = now;
  bot_config = ev.bot_config;
  postback_url = ev.postback_url;
  agent_bot_id = [];
  api_key = ev.api_key;
  outgoing_url = ev.outgoing_url;
  metadata = ev.metadata;
}

abbrev is_debounce : Stage → Bool
is_debounce Stage.debounce = true
is_debounce _ = false

-- `state != nil && state.Stage == model.StageDebounce`
abbrev pub in_debounce : Option PipelineState → Bool
in_debounce none = false
in_debounce (some st) = is_debounce st.stage

abbrev pub is_zero : ℤ → Bool
is_zero (pos zero) = true
is_zero _ = false

module _ (r : Repository) where
  abbrev pub S : Type 0
  S = Service r.Db

  read_clock : M S ℕ
  read_clock s = (s, ok s.now)

  abbrev launch : PairId → Text → List Attachment → Option Entry → S → S
  launch p buffer atts none s = s
  launch p buffer atts (some e) s = record s {
    ai_tasks =
        s.ai_tasks
        ++ (record {
          ctx = e.ctx;
          pair = p;
          buffer = buffer;
          attachments = atts;
          cfg = e.cfg;
          postback_url = e.postback_url;
        }
            ∷ []);
  }

  -- `launchAIStage`; every value of the map is an entry, so the type test always passes
  unfoldable pub launch_ai_stage : PairId → Text → List Attachment → S → S
  launch_ai_stage p buffer atts s = launch p buffer atts (lookup (pair_key p) s.entries) s

  unfoldable pub start_debounce : MessageEvent → M S (Unit {0})
  unfolding store_entry abandon read_clock
  start_debounce ev = do
    c ← store_entry (pair_of ev) (λ c. new_entry c ev)
    handle (lift (Debounce.start r (pair_of ev) ev.message_content ev.attachments ev.bot_config))
        (λ e. abandon c (pair_of ev) (Err.wrapped (codes "pipeline.debounce.start") e))
    now ← read_clock
    handle (lift (r.set_state (pair_of ev) (debounce_state ev now)))
        (λ e. abandon c (pair_of ev) (Err.wrapped (codes "pipeline.state.set") e))

  unfoldable pub skip_debounce : MessageEvent → M S (Unit {0})
  unfolding store_entry abandon read_clock
  skip_debounce ev = do
    c ← store_entry (pair_of ev) (λ c. new_entry c ev)
    handle (lift (Debounce.start r (pair_of ev) ev.message_content ev.attachments ev.bot_config))
        (λ e. abandon c (pair_of ev) (Err.wrapped (codes "pipeline.skip_debounce.start") e))
    buffer ←
        handle (lift (Debounce.get_buffer r (pair_of ev)))
          (λ e. abandon c (pair_of ev) (Err.wrapped (codes "pipeline.skip_debounce.get_buffer") e))
    atts ← handle (lift (Debounce.get_attachments r (pair_of ev))) (λ e. pure [])
    now ← read_clock
    handle (lift (r.set_state (pair_of ev) (bare_state Stage.ai now)))
        (λ e. abandon c (pair_of ev) (Err.wrapped (codes "pipeline.skip_debounce.set_state") e))
    modify (launch_ai_stage (pair_of ev) buffer atts)

  unfoldable pub reset_debounce : MessageEvent → M S (Unit {0})
  reset_debounce ev =
      context (codes "pipeline.debounce.reset")
        (lift (Debounce.reset r (pair_of ev) ev.message_content ev.attachments ev.bot_config))

  -- `if event.BotConfig.DebounceTime == 0 { … }`
  unfoldable pub begin_turn : MessageEvent → M S (Unit {0})
  begin_turn ev s =
      if is_zero ev.bot_config.debounce_time then skip_debounce ev s else start_debounce ev s

  -- the case of StageIncoming or no state
  unfoldable pub first_turn : MessageEvent → M S (Unit {0})
  unfolding cancel_pair begin_turn
  first_turn ev = do modify (cancel_pair (pair_of ev)); begin_turn ev

  -- the case of StageAI and StageDispatch
  unfoldable pub interrupt : MessageEvent → M S (Unit {0})
  unfolding cancel_pair begin_turn
  interrupt ev = do
    modify (cancel_pair (pair_of ev))
    context (codes "pipeline.process.clear") (lift (r.clear_state (pair_of ev)))
    begin_turn ev

  -- the `switch` of `Process`
  abbrev pub by_stage : Stage → MessageEvent → M S (Unit {0})
  by_stage Stage.incoming ev = first_turn ev
  by_stage Stage.debounce ev = reset_debounce ev
  by_stage Stage.ai ev = interrupt ev
  by_stage Stage.dispatch ev = interrupt ev
  by_stage Stage.done ev = pure tt
  by_stage (Stage.other name) ev = pure tt

  abbrev pub by_state : Option PipelineState → MessageEvent → M S (Unit {0})
  by_state none ev = first_turn ev
  by_state (some st) ev = by_stage st.stage ev

  -- `Process` between taking the lock and giving it back
  unfoldable pub process_locked : MessageEvent → M S (Unit {0})
  process_locked ev = do
    state ← context (codes "pipeline.process.get_state") (lift (r.get_state (pair_of ev)))
    by_state state ev

  -- the deferred `mu.Unlock()`, whose result is dropped
  abbrev pub release : r.Mutex → S × Result Err (Unit {0}) → S × Result Err (Unit {0})
  release mu (s, res) = (record s { db = (r.unlock mu s.db).0 }, res)

  unfoldable pub process : MessageEvent → M S (Unit {0})
  process ev = do
    mu ← handle (lift (r.acquire_lock (pair_of ev))) (λ e. fail (Err.sentinel Sentinel.lock_failed))
    (λ s. release mu (process_locked ev s))

  -- a return that logs at most
  abbrev quit : {A : Type 0} → M S A
  quit = fail (Err.foreign [])

  abbrev continue_if : Bool → M S (Unit {0})
  continue_if true = pure tt
  continue_if false = quit

  -- `advanceToAI` between taking the lock and giving it back; an error stands for an early return
  unfoldable pub advance_locked : PairId → M S (Unit {0})
  unfolding read_clock
  advance_locked p = do
    state ← lift (r.get_state p)
    continue_if (in_debounce state)
    exists ← lift (r.timer_exists p)
    continue_if (not exists)
    buffer ← lift (Debounce.get_buffer r p)
    atts ← handle (lift (Debounce.get_attachments r p)) (λ e. pure [])
    now ← read_clock
    lift (r.set_state p (bare_state Stage.ai now))
    modify (launch_ai_stage p buffer atts)

  unfoldable pub advance_outcome : PairId → M S (Unit {0})
  advance_outcome p = do mu ← lift (r.acquire_lock p); (λ s. release mu (advance_locked p s))

  unfoldable pub advance_to_ai : PairId → S → S
  unfolding advance_outcome
  advance_to_ai p s = (advance_outcome p s).0

  -- `clearStateWithLog`
  unfoldable pub clear_state_with_log : PairId → S → S
  clear_state_with_log p s = record s { db = (r.clear_state p s.db).0 }

  -- `Cancel`, which always returns nil
  unfoldable pub cancel : PairId → S → S
  unfolding cancel_pair clear_state_with_log
  cancel p s = clear_state_with_log p (cancel_pair p s)
