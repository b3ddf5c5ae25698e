-- ===== src/Service/Stages.antt =====
-- The bodies of the goroutines `runAIStage` and `runDispatchStage`, the notice for a failed turn, and
-- the recovery from a panic. What the adapter and the dispatch engine return arrives as an argument:
-- while they run, other steps may change the service.
use evo_bot_runtime.Prelude.{[], ◌∷◌, ◌++◌, Option, none, some, Result, ok, err, map, if◌then◌else◌}
use evo_bot_runtime.Prelude.Text.{Text, codes, is_empty, trim_space}
use evo_bot_runtime.Prelude.Assoc.{lookup}
use evo_bot_runtime.Errors.{Err, Sentinel, is}
use evo_bot_runtime.Model.{PairId, Stage, Attachment}
use evo_bot_runtime.Keys.{pair_key}
use evo_bot_runtime.Repository.{Repository}
use evo_bot_runtime.Ai.Wire.{Media, A2aRequest}
use evo_bot_runtime.Service.State.{Service, Entry, AiTask, DispatchTask, delete_entry}
use evo_bot_runtime.Service.Process.{S, bare_state, clear_state_with_log}

-- What a call comes to: it returns, or it panics.
pub data Outcome (A : Type 0) : Type 0 where
  returns : Result Err A → Outcome A
  panics : Outcome A

abbrev pub to_media : Attachment → Media
to_media a = record { url = a.url; content_type = a.content_type; file_type = a.file_type }

abbrev request_with : AiTask → Option Entry → A2aRequest
request_with t none = record {
  outgoing_url = [];
  contact_id = t.pair.contact_id;
  conversation_id = t.pair.conversation_id;
  api_key = [];
  message = t.buffer;
  metadata = none;
  attachments = map to_media t.attachments;
}
request_with t (some e) = record {
  outgoing_url = e.outgoing_url;
  contact_id = t.pair.contact_id;
  conversation_id = t.pair.conversation_id;
  api_key = e.api_key;
  message = t.buffer;
  metadata = e.metadata;
  attachments = map to_media t.attachments;
}

-- The request that `runAIStage` builds from its arguments and from the entry that it finds.
unfoldable pub request_of : {Db : Type 0} → AiTask → Service Db → A2aRequest
request_of t s = request_with t (lookup (pair_key t.pair) s.entries)

abbrev pub default_ai_failure_notice : Text
default_ai_failure_notice =
    codes
      "We are having a temporary issue and could not answer right now. We will get back to you shortly."

-- The text of the notice, from what `os.LookupEnv("AI_FAILURE_NOTICE")` finds; `none` if disabled.
unfoldable pub notice_text : Option Text → Option Text
unfolding trim_space
notice_text none = some default_ai_failure_notice
notice_text (some v) = if is_empty (trim_space v) then none else some v

module _ (r : Repository) where
  -- `recoverPipeline` after a panic
  unfoldable pub recover_pipeline : PairId → S r → S r
  unfolding clear_state_with_log
  recover_pipeline p s = delete_entry p (clear_state_with_log r p s)

  -- an error is only logged, a panic is recovered
  abbrev after_notice : PairId → Outcome (Unit {0}) → S r → S r
  after_notice p (returns res) s = s
  after_notice p panics s = recover_pipeline p s

  abbrev dispatch_notice : AiTask → Option Text → Outcome (Unit {0}) → S r → S r
  dispatch_notice t none sent s = s
  dispatch_notice t (some notice) sent s =
      if is_empty t.postback_url
      then s
      else after_notice t.pair sent (record s {
        notices =
            s.notices
            ++ (record {
              pair = t.pair;
              content = notice;
              cfg = t.cfg;
              postback_url = t.postback_url;
            }
                ∷ []);
      })

  -- `sendAIFailureNotice`; `sent` is what the `Dispatch` of the notice comes to
  unfoldable pub send_ai_failure_notice : Option Text → AiTask → Outcome (Unit {0}) → S r → S r
  unfolding notice_text recover_pipeline
  send_ai_failure_notice env t sent s = dispatch_notice t (notice_text env) sent s

  -- `launchDispatchStage`
  abbrev launch_dispatch_stage : AiTask → Text → S r → S r
  launch_dispatch_stage t content s = record s {
    dispatch_tasks =
        s.dispatch_tasks
        ++ (record {
          ctx = t.ctx;
          pair = t.pair;
          content = content;
          cfg = t.cfg;
          postback_url = t.postback_url;
        }
            ∷ []);
  }

  abbrev after_set_dispatch : AiTask → Text → Result Err (Unit {0}) → S r → S r
  after_set_dispatch t content (ok done) s = launch_dispatch_stage t content s
  after_set_dispatch t content (err e) s = clear_state_with_log r t.pair s

  -- the rest of `runAIStage`, from the return of the adapter's call on
  unfoldable pub finish_ai : Option Text → AiTask → Outcome Text → Outcome (Unit {0}) → S r → S r
  unfolding clear_state_with_log send_ai_failure_notice recover_pipeline
  finish_ai env t panics sent s = recover_pipeline t.pair s
  finish_ai env t (returns (err e)) sent s =
      if is e Sentinel.pipeline_cancelled
      then s
      else if is e Sentinel.ai_timeout
      then send_ai_failure_notice env t sent (clear_state_with_log r t.pair s)
      else send_ai_failure_notice env t sent (clear_state_with_log r t.pair s)
  finish_ai env t (returns (ok content)) sent s =
      let call = r.set_state t.pair (bare_state Stage.dispatch s.now) s.db in
      after_set_dispatch t content call.1 (record s { db = call.0 })

  -- the rest of `runDispatchStage`, from the return of `Dispatch` on
  unfoldable pub finish_dispatch : DispatchTask → Outcome (Unit {0}) → S r → S r
  unfolding clear_state_with_log recover_pipeline
  finish_dispatch t panics s = recover_pipeline t.pair s
  finish_dispatch t (returns (err e)) s =
      if is e Sentinel.dispatch_interrupted then s else clear_state_with_log r t.pair s
  finish_dispatch t (returns (ok done)) s =
      let call = r.set_state t.pair (bare_state Stage.done s.now) s.db in
      delete_entry t.pair (clear_state_with_log r t.pair (record s { db = call.0 }))
