-- ===== src/Handler/Laws.antt =====
-- What the event endpoint lets through.
use evo_bot_runtime.Prelude.{ℕ, Option, none, some, ◌≡◌, arith, inl, inr, Option-cases}
use evo_bot_runtime.Prelude.Text.{Text, text_eq_iff}
use evo_bot_runtime.Model.{PairId, MessageEvent, Stage}
use evo_bot_runtime.Validation.{IsAcceptable, validate, validate-none_iff}
use evo_bot_runtime.Repository.{Repository, Cell, Contract}
use evo_bot_runtime.Service.State.{pair_of}
use evo_bot_runtime.Service.Process.{bare_state}
use evo_bot_runtime.Handler.{accepted, Handled, post_events}

-- A process goroutine stands for an authenticated, acceptable event, whose arrival is stored: the
-- state of its pair is the incoming stage, and its buffers are untouched.
pub record Admitted {Db : Type 0} (view : Db → PairId → Cell) (secret header : Text)
    (ev : MessageEvent) (now : ℕ) (db : Db) (h : Handled Db) : Type 0 where
  pub authentic : header ≡ secret
  pub acceptable : IsAcceptable ev
  pub response : h.response ≡ accepted
  pub cell :
      view h.db (pair_of ev)
      ≡ record (view db (pair_of ev)) { state = some (bare_state Stage.incoming now) }

module _ (r : Repository) (c : Contract r) where
  -- A process goroutine is launched only for a request with the secret of the service and an event
  -- that is acceptable, answered by 202, and after the incoming stage was stored for its pair without
  -- a change to the pair's buffers.
  pub post_events-Admitted :
      (secret header : Text) (body : Option MessageEvent) (now : ℕ) (db : r.Db) (ev : MessageEvent)
      → (post_events r secret header body now db).launched ≡ some ev
      → Admitted c.view secret header ev now db (post_events r secret header body now db)
  unfolding post_events
  post_events-Admitted secret header none now db ev h = absurd (ground arith)
  post_events-Admitted secret header (some e) now db ev h = elim (Option-cases (validate e)) [
    | inr (x, bad) ↦ absurd (ground arith)
    | inl good ↦
        let same : e ≡ ev = ground arith in
        let w = (c.set_state_writes (pair_of e) (bare_state Stage.incoming now)).here db in
        record {
          authentic = ground (arith, text_eq_iff header secret);
          acceptable = rw (← same) ((validate-none_iff e).0 good);
          response = ground arith;
          cell = rw (← same) (ground (arith, w));
        }
  ]
