-- ===== src/Arrival.antt =====
-- A request at the event endpoint and the goroutine that it launches: `SecretMiddleware`, `handleEvent`
-- and `runProcess` of pkg/pipeline/handler, with `Process` of the service behind them. The goroutines of
-- a pair that were launched and have not run yet are pending, and run in any order.
pub mod Laws
pub mod Burst
pub mod Lost
use evo_bot_runtime.Prelude.{List, [], ◌∷◌, ◌++◌, Option, none, some}
use evo_bot_runtime.Prelude.Text.{Text}
use evo_bot_runtime.Model.{MessageEvent}
use evo_bot_runtime.Repository.{Repository}
use evo_bot_runtime.Service.Process.{S, process}
use evo_bot_runtime.Handler.{Handled, post_events}

-- The service, and the events of the goroutines that are pending for a pair.
pub record Inbox (r : Repository) : Type 0 where
  pub service : S r
  pub pending : List MessageEvent

abbrev launched_list : Option MessageEvent → List MessageEvent
launched_list none = []
launched_list (some ev) = ev ∷ []

module _ (r : Repository) where
  -- the state of the service once the handler has answered
  abbrev pub answered : Text → Text → Option MessageEvent → S r → S r
  answered secret header body s = record s { db = (post_events r secret header body s.now s.db).db }

  -- The request, up to the `go` statement with its goroutine.
  unfoldable pub handle : Text → Text → Option MessageEvent → Inbox r → Inbox r
  handle secret header body i = record {
    service = answered secret header body i.service;
    pending =
        i.pending
        ++ launched_list (post_events r secret header body i.service.now i.service.db).launched;
  }

  -- The goroutine, `runProcess`, which only logs an error; `rest` are those that are pending still.
  unfoldable pub run_process : MessageEvent → List MessageEvent → Inbox r → Inbox r
  run_process ev rest i = record { service = (process r ev i.service).0; pending = rest }
