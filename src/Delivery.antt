-- ===== src/Delivery.antt =====
-- The two stages of a turn with the calls that they make: `runAIStage` with the adapter's `Call`, and
-- `runDispatchStage` with `Dispatch`, where no other step comes between a call and what follows it.
pub mod Laws
pub mod Message
use evo_bot_runtime.Prelude.{List, Option, none, some, Result, ok, err}
use evo_bot_runtime.Prelude.Text.{Text}
use evo_bot_runtime.Repository.{Repository}
use evo_bot_runtime.Service.State.{AiTask, DispatchTask}
use evo_bot_runtime.Service.Process.{S}
use evo_bot_runtime.Service.Stages.{Outcome, returns, request_of, finish_ai, finish_dispatch}
use evo_bot_runtime.Dispatch.Engine.{Client, dispatch}
use evo_bot_runtime.Ai.Files.{Platform}
use evo_bot_runtime.Ai.Retry.{Adapter}
use evo_bot_runtime.Ai.Adapter.{Sender, call_ai}

-- What `main` puts together, and what the environment sets.
pub record Runtime : Type 1 where
  pub repository : Repository
  pub client : Client
  pub platform : Platform
  pub sender : Sender
  pub adapter : Adapter
  pub secret : Text
  pub media_hosts : Text
  pub failure_notice : Option Text

-- The service among the worlds of its calls.
pub record World (rt : Runtime) : Type 0 where
  pub service : S rt.repository
  pub posts : rt.client.World
  pub downloads : rt.platform.World
  pub requests : rt.sender.World

module _ (rt : Runtime) where
  -- the goroutine `runAIStage`; `sent` is what the dispatch of a notice comes to
  unfoldable pub run_ai_stage : AiTask → Outcome (Unit {0}) → World rt → World rt
  unfolding request_of call_ai finish_ai
  run_ai_stage t sent w =
      let out =
        call_ai rt.platform rt.sender rt.media_hosts rt.adapter (request_of t w.service) w.downloads
          w.requests in
      record w {
        service = finish_ai rt.repository rt.failure_notice t (returns out.2) sent w.service;
        downloads = out.0;
        requests = out.1;
      }

  -- the goroutine `runDispatchStage`
  unfoldable pub run_dispatch_stage : DispatchTask → World rt → World rt
  unfolding dispatch finish_dispatch
  run_dispatch_stage t w =
      let out = dispatch rt.client rt.secret t.content t.cfg t.postback_url w.posts in
      record w {
        service = finish_dispatch rt.repository t (returns out.1) w.service;
        posts = out.0;
      }
