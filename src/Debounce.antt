-- ===== src/Debounce.antt =====
-- pkg/debounce/service/debounce_engine.go over the repository interface.
pub mod Laws
use evo_bot_runtime.Prelude.{zero, suc, Bool, List, [], ◌∷◌, ◌++◌}
use evo_bot_runtime.Prelude.Int.{ℤ, pos, negsuc}
use evo_bot_runtime.Prelude.Text.{Text, codes}
use evo_bot_runtime.Model.{PairId, BotConfig, Attachment}
use evo_bot_runtime.Monad.{M, pure, context, ◌>>=◌, ◌>>◌}
use evo_bot_runtime.Repository.{Repository}

-- strings.Join(entries, "\n\n")
unfoldable pub join : List Text → Text
join [] = []
join (t ∷ []) = t
join (t ∷ u ∷ ts) = t ++ (10 ∷ 10 ∷ join (u ∷ ts))

module _ (r : Repository) where
  -- `if cfg.DebounceTime > 0 { … }`
  arm_timer : PairId → Text → ℤ → M r.Db (Unit {0})
  arm_timer p label (pos zero) = pure tt
  arm_timer p label (pos (suc n)) = context label (r.set_timer p (suc n))
  arm_timer p label (negsuc n) = pure tt

  unfoldable pub start : PairId → Text → List Attachment → BotConfig → M r.Db (Unit {0})
  unfolding arm_timer
  start p content atts cfg = do
    context (codes "debounce.start.append") (r.append_to_buffer p content)
    context (codes "debounce.start.append_attachments") (r.append_attachments p atts)
    arm_timer p (codes "debounce.start.set_timer") cfg.debounce_time

  unfoldable pub reset : PairId → Text → List Attachment → BotConfig → M r.Db (Unit {0})
  unfolding arm_timer
  reset p content atts cfg = do
    context (codes "debounce.reset.append") (r.append_to_buffer p content)
    context (codes "debounce.reset.append_attachments") (r.append_attachments p atts)
    arm_timer p (codes "debounce.reset.set_timer") cfg.debounce_time

  unfoldable pub get_buffer : PairId → M r.Db Text
  unfolding join
  get_buffer p = do
    entries ← context (codes "debounce.get_buffer") (r.get_buffer p)
    pure (join entries)

  unfoldable pub get_attachments : PairId → M r.Db (List Attachment)
  get_attachments p = r.get_attachments p

  unfoldable pub timer_exists : PairId → M r.Db Bool
  timer_exists p = r.timer_exists p
