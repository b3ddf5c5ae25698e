-- ===== src/Service/Progress/Growth.antt =====
-- The goroutines that steps launch, and one of them among the others.
use evo_bot_runtime.Prelude.{List, [], ◌∷◌, ◌++◌, ◌≡◌, sym, ap, ◌∙◌, append-nil, append_assoc}
use evo_bot_runtime.Model.{PairId}
use evo_bot_runtime.Repository.{Cell}
use evo_bot_runtime.Service.State.{Service, Entry, AiTask}
use evo_bot_runtime.Service.Progress.{turn_of, Launched}

-- Goroutines were launched, and none ended.
abbrev pub Grows : {Db : Type 0} → Service Db → Service Db → Type 0
Grows s t = (more : List AiTask) × (t.ai_tasks ≡ s.ai_tasks ++ more)

pub Grows-refl : {Db : Type 0} (s : Service Db) → Grows s s
Grows-refl s = ([], sym (append-nil s.ai_tasks))

pub Grows-trans : {Db : Type 0} (s t u : Service Db) → Grows s t → Grows t u → Grows s u
Grows-trans s t u (xs, e) (ys, f) =
    (xs ++ ys, f ∙ ap (λ (z : List AiTask). z ++ ys) e ∙ append_assoc s.ai_tasks xs ys)

-- The goroutine of the turn is among those that were launched in between.
pub record Polled {Db : Type 0} (view : Db → PairId → Cell) (p : PairId) (e : Entry)
    (s t : Service Db) : Type 0 where
  pub before : List AiTask
  pub after : List AiTask
  pub tasks : t.ai_tasks ≡ s.ai_tasks ++ (before ++ (turn_of p e (view s.db p) ∷ after))

regroup : (xs ys zs ws : List AiTask) → (xs ++ ys) ++ (zs ++ ws) ≡ xs ++ ((ys ++ zs) ++ ws)
regroup xs ys zs ws = simp append_assoc

module _ {Db : Type 0} (view : Db → PairId → Cell) (p : PairId) (e : Entry)
    (s t u : Service Db) where
  -- It was launched first.
  pub Polled-first : Launched view p e s t → Grows t u → Polled view p e s u
  Polled-first l (more, grown) = record {
    before = [];
    after = more;
    tasks =
        grown
        ∙ ap (λ (z : List AiTask). z ++ more) l.task
        ∙ append_assoc s.ai_tasks (turn_of p e (view s.db p) ∷ []) more;
  }

  -- It was launched after others.
  pub Polled-later :
      view t.db p ≡ view s.db p → Grows s t → Polled view p e t u → Polled view p e s u
  Polled-later same (more, grown) b =
      let rest = turn_of p e (view s.db p) ∷ b.after in
      let tasks : u.ai_tasks ≡ t.ai_tasks ++ (b.before ++ rest) = rw (← same) b.tasks in
      record {
        before = more ++ b.before;
        after = b.after;
        tasks =
            tasks
            ∙ ap (λ (z : List AiTask). z ++ (b.before ++ rest)) grown
            ∙ regroup s.ai_tasks more b.before rest;
      }
