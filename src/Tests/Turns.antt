-- ===== src/Tests/Turns.antt =====
-- The theorems on the pipeline service, applied to turns over the repository in memory.
use evo_bot_runtime.Prelude.{
  ℕ, true, false, [], ◌∷◌, none, some, ok, err, ◌≡◌, ◌≢◌, refl, ◌⊎◌, arith,
}
use evo_bot_runtime.Prelude.Int.{pos}
use evo_bot_runtime.Prelude.Float.{Float64, Sign}
use evo_bot_runtime.Prelude.Text.{Text, codes, text_eq}
use evo_bot_runtime.Prelude.Assoc.{lookup, erase, insert}
use evo_bot_runtime.Errors.{Err, Sentinel, is}
use evo_bot_runtime.Model.{PairId, BotConfig, MessageEvent, Stage}
use evo_bot_runtime.Keys.{pair_key, format, digits}
use evo_bot_runtime.Keys.RoundTrip.{IsInt64Pair}
use evo_bot_runtime.Repository.{Repository, empty_cell}
use evo_bot_runtime.Debounce
use evo_bot_runtime.Service.State.{
  Service, AiTask, DispatchTask, Notice, pair_of, store_entry, cancel_pair, abandon,
}
use evo_bot_runtime.Service.Stages.{Outcome, returns, finish_ai, finish_dispatch}
use evo_bot_runtime.Service.Process.{
  bare_state, start_debounce, begin_turn, first_turn, process_locked, process, launch_ai_stage,
  advance_locked, advance_outcome, advance_to_ai,
}
use evo_bot_runtime.Service.Recovery.{recover_pair, start, poll}
use evo_bot_runtime.Service.Refinement.{process-cell, message_cell}
use evo_bot_runtime.Service.Branches.{Replaced, Failed}
use evo_bot_runtime.Service.Turn.{process-Replaced, process-Failed}
use evo_bot_runtime.Service.Once.{Advanced, advance-Advanced, advance-advance}
use evo_bot_runtime.Service.Interleaving.{
  started, next, process_event, poll_tick, new_service, Reach-Consistent,
}
use evo_bot_runtime.Service.Consistency.{Consistent}
use evo_bot_runtime.Service.Restart.{rebuilt_entry, recover_pair-process}
use evo_bot_runtime.Service.Endings.{Apology, finish_ai-notices}
use evo_bot_runtime.Service.Races.{
  answered_then_failed, late_answer-strands, late_completion-erases,
}
use evo_bot_runtime.Tests.Memory.{Cells, no_cells, memory, memory_contract, cell_of}

abbrev pub no_delay : Float64
no_delay = record { sign = Sign.at_zero; times_trunc = λ n. 0 }

abbrev pub settings : ℕ → BotConfig
settings debounce = record {
  debounce_time = pos debounce;
  message_signature = [];
  text_segmentation_enabled = true;
  text_segmentation_limit = pos 8;
  text_segmentation_min_size = pos 3;
  delay_per_character = no_delay;
}

abbrev pub message : ℕ → Text → MessageEvent
message debounce text = record {
  agent_bot_id = codes "agent";
  conversation_id = pos 7;
  contact_id = pos 3;
  message_id = codes "m1";
  message_content = text;
  attachments = [];
  api_key = codes "key";
  outgoing_url = codes "http://ai";
  bot_config = settings debounce;
  postback_url = codes "http://crm";
  metadata = none;
}

abbrev pub free : Repository
free = memory false false

abbrev pub hello : MessageEvent
hello = message 5 (codes "hello")

abbrev urgent : MessageEvent
urgent = message 0 (codes "urgent")

abbrev pub idle : Service Cells
idle = new_service free no_cells 100

pub hello-IsInt64Pair : IsInt64Pair (pair_of hello)
hello-IsInt64Pair = record { contact = ground arith; conversation = ground arith }

hello_processed : (process free hello idle).1 ≡ ok tt
unfolding process process_locked first_turn begin_turn start_debounce cancel_pair store_entry
    abandon Debounce.start lookup erase insert
hello_processed = refl

process-cell_example :
    cell_of (process free hello idle).0.db (pair_of hello)
    ≡ message_cell hello 100 (cell_of no_cells (pair_of hello))
process-cell_example = process-cell free (memory_contract false false) hello idle hello_processed

Reach-Consistent_example : Consistent (poll free (process free hello (start free idle).0).0)
Reach-Consistent_example =
    Reach-Consistent free (memory_contract false false)
      (next (next (started no_cells 100) (process_event hello _ hello-IsInt64Pair)) (poll_tick _))

process-Replaced_example : Replaced cell_of hello idle (process free hello idle).0
process-Replaced_example =
    process-Replaced free (memory_contract false false) hello idle refl hello_processed

abbrev pub waiting : Service Cells
waiting = (process free hello idle).0

abbrev pub pair : PairId
pair = pair_of hello

advance-Advanced_example :
    ((advance_to_ai free pair waiting).ai_tasks ≡ waiting.ai_tasks)
    ⊎ Advanced cell_of pair waiting (advance_to_ai free pair waiting)
advance-Advanced_example = advance-Advanced free (memory_contract false false) pair waiting

hello_advanced : (advance_to_ai free pair waiting).ai_tasks ≢ waiting.ai_tasks
unfolding advance_to_ai advance_outcome advance_locked launch_ai_stage Debounce.get_buffer
    Debounce.get_attachments Debounce.timer_exists process process_locked first_turn begin_turn
    start_debounce cancel_pair store_entry abandon Debounce.start lookup erase insert Debounce.join
    text_eq pair_key format digits
hello_advanced = cc

advance-advance_example :
    (advance_to_ai free pair (advance_to_ai free pair waiting)).ai_tasks
    ≡ (advance_to_ai free pair waiting).ai_tasks
advance-advance_example =
    advance-advance free (memory_contract false false) pair waiting hello_advanced

-- the lock is held by another
abbrev held : Repository
held = memory true false

hello_refused : (process held hello idle).1 ≡ err (Err.sentinel Sentinel.lock_failed)
unfolding process
hello_refused = refl

process-Failed_example : Failed hello idle (process held hello idle).0
process-Failed_example =
    process-Failed held (memory_contract true false) hello idle (Err.sentinel Sentinel.lock_failed)
      hello_refused

recover_pair-process_example :
    lookup (pair_key pair) (recover_pair free pair (new_service free waiting.db 200)).entries
    ≡ some (rebuilt_entry 0 hello)
recover_pair-process_example =
    recover_pair-process free (memory_contract false false) hello idle 200
      (cell_of waiting.db pair).state refl refl hello_processed refl

abbrev urgent_task : AiTask
urgent_task = record {
  ctx = 0;
  pair = pair_of urgent;
  buffer = codes "urgent";
  attachments = [];
  cfg = settings 0;
  postback_url = codes "http://crm";
}

abbrev outage : Err
outage = Err.foreign (codes "outage")

abbrev outage_end : Outcome Text
outage_end = returns (err outage)

finish_ai-notices_example :
    let t = finish_ai free none urgent_task outage_end (returns (ok tt)) idle in
    (t.notices ≡ [])
    ⊎ ((e : Err) × (n : Notice) × (outage_end ≡ returns (err e))
        × (is e Sentinel.pipeline_cancelled ≡ false)
        × Apology none urgent_task n
        × (t.notices ≡ n ∷ []))
finish_ai-notices_example =
    finish_ai-notices free none urgent_task outage_end (returns (ok tt)) idle

abbrev interruption : Err
interruption = Err.sentinel Sentinel.dispatch_interrupted

abbrev answer_task : DispatchTask
answer_task = record {
  ctx = 0;
  pair = pair;
  content = codes "hi";
  cfg = settings 0;
  postback_url = codes "http://crm";
}

is_interruption : is interruption Sentinel.dispatch_interrupted ≡ true
unfolding is
is_interruption = refl

-- the answer to an urgent message arrives while a newer message waits
late_answer-strands_example :
    let u =
      answered_then_failed free
        (memory_contract false false)
        none
        urgent_task
        (codes "hi")
        (returns (ok tt))
        answer_task
        interruption
        waiting in
    ((cell_of u.db pair).state ≡ some (bare_state Stage.dispatch waiting.now))
    × (u.entries ≡ waiting.entries)
    × ((advance_to_ai free pair u).ai_tasks ≡ waiting.ai_tasks)
late_answer-strands_example =
    late_answer-strands free (memory_contract false false) none urgent_task (codes "hi")
      (returns (ok tt)) answer_task interruption waiting refl is_interruption

late_completion-erases_example :
    let u = finish_dispatch free answer_task (returns (ok tt)) waiting in
    (cell_of u.db pair ≡ empty_cell) × (lookup (pair_key pair) u.entries ≡ none)
late_completion-erases_example =
    late_completion-erases free (memory_contract false false) answer_task waiting refl
