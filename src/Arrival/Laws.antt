-- ===== src/Arrival/Laws.antt =====
-- What a message does to the turn of its pair on the way through the endpoint and its goroutine.
use evo_bot_runtime.Prelude.{true, some, ok, ◌≡◌, refl}
use evo_bot_runtime.Prelude.Text.{Text}
use evo_bot_runtime.Model.{MessageEvent}
use evo_bot_runtime.Repository.{Repository, Contract}
use evo_bot_runtime.Handler.{post_events}
use evo_bot_runtime.Handler.Laws.{post_events-Admitted}
use evo_bot_runtime.Service.State.{pair_of}
use evo_bot_runtime.Service.Process.{S, process}
use evo_bot_runtime.Service.Refinement.{begin_cell, process-cell}
use evo_bot_runtime.Service.Branches.{opens_turn, Replaced}
use evo_bot_runtime.Service.Turn.{process-Replaced}
use evo_bot_runtime.Arrival.{answered}

module _ (r : Repository) (c : Contract r) (secret header : Text) (ev : MessageEvent)
    (s u : S r) where
  -- When the goroutine of an accepted message runs, with no step on the cell of its pair since the
  -- handler, and reports no error, its message opens a turn on what was buffered, whatever the stage was
  -- ahead of the handler: a turn that was debounced, asked or dispatched is cancelled and replaced, and
  -- its buffered text and media stay in front of those of the message.
  pub handle-Replaced :
      (post_events r secret header (some ev) s.now s.db).launched ≡ some ev
      → c.view u.db (pair_of ev) ≡ c.view (answered r secret header (some ev) s).db (pair_of ev)
      → (process r ev u).1 ≡ ok tt
      → (c.view (process r ev u).0.db (pair_of ev) ≡ begin_cell ev u.now (c.view s.db (pair_of ev)))
        × Replaced c.view ev u (process r ev u).0
  handle-Replaced launched kept done =
      let admitted = post_events-Admitted r c secret header (some ev) s.now s.db ev launched in
      let stage : opens_turn (c.view u.db (pair_of ev)).state ≡ true =
        rw (kept, admitted.cell) refl in
      (
        rw (process-cell r c ev u done, kept, admitted.cell) refl,
        process-Replaced r c ev u stage done,
      )
