-- ===== src/Arrival/Lost.antt =====
-- A message whose goroutine finds the lock of its pair held, from its handler to the next message of the
-- pair.
use evo_bot_runtime.Prelude.{false, some, ok, err, ◌≡◌, refl, sym, ap, ◌∙◌, arith}
use evo_bot_runtime.Prelude.Text.{Text}
use evo_bot_runtime.Errors.{Err, Sentinel}
use evo_bot_runtime.Model.{MessageEvent}
use evo_bot_runtime.Repository.{Repository, Cell, Contract}
use evo_bot_runtime.Handler.{post_events}
use evo_bot_runtime.Handler.Laws.{post_events-Admitted}
use evo_bot_runtime.Service.State.{pair_of}
use evo_bot_runtime.Service.Process.{S, in_debounce, process, advance_to_ai}
use evo_bot_runtime.Service.Once.{advance-idle}
use evo_bot_runtime.Service.Refinement.{begin_cell}
use evo_bot_runtime.Arrival.{answered}
use evo_bot_runtime.Arrival.Laws.{handle-Replaced}

module _ (r : Repository) (c : Contract r) (secret : Text) (a b : MessageEvent)
    (same : pair_of b ≡ pair_of a) (s u v w : S r) where
  process-refused :
      (x : Err)
      → (r.acquire_lock (pair_of a) u.db).1 ≡ err x
      → c.view (process r a u).0.db (pair_of a) ≡ c.view u.db (pair_of a)
  unfolding process
  process-refused x refused =
      let kept = c.acquire_lock_reads (pair_of a) u.db (pair_of a) in
      let t = record u { db = (r.acquire_lock (pair_of a) u.db).0 } in
      let out : process r a u ≡ (t, err (Err.sentinel Sentinel.lock_failed)) = ground arith in
      rw out kept

  -- A message that was accepted is lost if its goroutine finds the lock of its pair held: with no step on
  -- the cell of the pair since its handler, and none until the next message of the pair, `advanceToAI`
  -- launches nothing for the pair, whether or not the lock has been released and the timer has expired
  -- since, and the turn that the next message opens is on what was buffered ahead of the lost message,
  -- without its text and media.
  pub lost_message :
      (x : Err) (header_a header_b : Text)
      → (post_events r secret header_a (some a) s.now s.db).launched ≡ some a
      → c.view u.db (pair_of a) ≡ c.view (answered r secret header_a (some a) s).db (pair_of a)
      → (r.acquire_lock (pair_of a) u.db).1 ≡ err x
      → c.view v.db (pair_of a) ≡ c.view (process r a u).0.db (pair_of a)
      → (post_events r secret header_b (some b) v.now v.db).launched ≡ some b
      → c.view w.db (pair_of b) ≡ c.view (answered r secret header_b (some b) v).db (pair_of b)
      → (process r b w).1 ≡ ok tt
      → ((advance_to_ai r (pair_of a) v).ai_tasks ≡ v.ai_tasks)
        × (c.view (process r b w).0.db (pair_of a) ≡ begin_cell b w.now (c.view s.db (pair_of a)))
  lost_message x header_a header_b launched_a kept_a refused between launched_b kept_b done =
      let admitted = post_events-Admitted r c secret header_a (some a) s.now s.db a launched_a in
      let cell = between ∙ process-refused x refused ∙ kept_a ∙ admitted.cell in
      let waits : in_debounce (c.view v.db (pair_of a)).state ≡ false = rw cell refl in
      let opened = (handle-Replaced r c secret header_b b v w launched_b kept_b done).0 in
      (
        (advance-idle r c (pair_of a) v waits).0,
        ap (c.view (process r b w).0.db) (sym same)
            ∙ opened
            ∙ ap (λ (z : Cell). begin_cell b w.now z) (ap (c.view v.db) same ∙ cell),
      )
