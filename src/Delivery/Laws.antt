-- ===== src/Delivery/Laws.antt =====
-- A turn from the poller to the customer.
use evo_bot_runtime.Prelude.{[], ◌∷◌, ◌++◌, none, ok, ◌≡◌, map}
use evo_bot_runtime.Prelude.Text.{Text}
use evo_bot_runtime.Prelude.Assoc.{lookup}
use evo_bot_runtime.Model.{PairId}
use evo_bot_runtime.Keys.{pair_key}
use evo_bot_runtime.Repository.{Cell, Contract, empty_cell}
use evo_bot_runtime.Debounce
use evo_bot_runtime.Service.State.{Entry, AiTask, DispatchTask}
use evo_bot_runtime.Service.Process.{advance_to_ai}
use evo_bot_runtime.Service.Stages.{returns, to_media, request_of}
use evo_bot_runtime.Service.Progress.{turn_of}
use evo_bot_runtime.Dispatch.Engine.{ClientLaws}
use evo_bot_runtime.Dispatch.Engine.Laws.{answer_posts}
use evo_bot_runtime.Ai.Wire.{A2aRequest}
use evo_bot_runtime.Delivery.{Runtime, World, run_ai_stage, run_dispatch_stage}

-- The goroutine that dispatches the answer of a turn.
abbrev pub dispatch_of : AiTask → Text → DispatchTask
dispatch_of t content = record {
  ctx = t.ctx;
  pair = t.pair;
  content = content;
  cfg = t.cfg;
  postback_url = t.postback_url;
}

-- The request that the AI service is to get for a turn.
abbrev pub turn_request : PairId → Entry → Cell → A2aRequest
turn_request p e v = record {
  outgoing_url = e.outgoing_url;
  contact_id = p.contact_id;
  conversation_id = p.conversation_id;
  api_key = e.api_key;
  message = Debounce.join v.buffer;
  metadata = e.metadata;
  attachments = map to_media v.media;
}

module _ (rt : Runtime) where
  -- The world once the AI stage has been launched for a pair, the goroutine off the list.
  abbrev pub at_ai_stage : PairId → World rt → World rt
  at_ai_stage p w = record w {
    service = record (advance_to_ai rt.repository p w.service) { ai_tasks = w.service.ai_tasks };
  }

  -- The world after the AI stage of a turn.
  abbrev pub at_dispatch_stage : PairId → AiTask → World rt → World rt
  at_dispatch_stage p t w = run_ai_stage rt t (returns (ok tt)) (at_ai_stage p w)

  -- The world after both stages of a turn with an answer.
  abbrev pub at_end : PairId → AiTask → Text → World rt → World rt
  at_end p t content w =
      let a = at_dispatch_stage p t w in
      run_dispatch_stage rt (dispatch_of t content)
        (record a { service = record a.service { dispatch_tasks = w.service.dispatch_tasks } })

  -- A turn that was delivered: each stage was launched once, the answer was posted whole, behind what
  -- was posted before, and nothing of the turn is left.
  pub record Delivered (c : Contract rt.repository) (l : ClientLaws rt.client) (p : PairId)
      (e : Entry) (content : Text) (w : World rt) : Type 0 where
    pub launched :
        (advance_to_ai rt.repository p w.service).ai_tasks
        ≡ w.service.ai_tasks ++ (turn_of p e (c.view w.service.db p) ∷ [])
    pub request :
        request_of (turn_of p e (c.view w.service.db p)) (at_ai_stage p w).service
        ≡ turn_request p e (c.view w.service.db p)
    pub handed_over :
        (at_dispatch_stage p (turn_of p e (c.view w.service.db p)) w).service.dispatch_tasks
        ≡ w.service.dispatch_tasks
          ++ (dispatch_of (turn_of p e (c.view w.service.db p)) content ∷ [])
    pub posted :
        l.sent (at_end p (turn_of p e (c.view w.service.db p)) content w).posts
        ≡ l.sent w.posts ++ answer_posts rt.secret content e.cfg e.postback_url
    pub cell :
        c.view (at_end p (turn_of p e (c.view w.service.db p)) content w).service.db p ≡ empty_cell
    pub entry :
        lookup
          (pair_key p)
          (at_end p (turn_of p e (c.view w.service.db p)) content w).service.entries
        ≡ none

module _ (rt : Runtime) (c : Contract rt.repository) (l : ClientLaws rt.client) (p : PairId)
    (e : Entry) (content : Text) (w : World rt) where
  abbrev turn : AiTask
  turn = turn_of p e (c.view w.service.db p)

  abbrev mid : World rt
  mid = at_ai_stage rt p w
