-- ===== src/Errors.antt =====
-- internal/errors/errors.go: the sentinel errors, and the errors of the packages that wrap them.
use evo_bot_runtime.Prelude.{Bool, true, false}
use evo_bot_runtime.Prelude.Text.{Text}

pub data Sentinel : Type 0 where
  pipeline_cancelled ai_timeout dispatch_interrupted lock_failed : Sentinel

-- `fmt.Errorf("label: %w", e)` is `wrapped label e`; an error made by other code is `foreign`.
pub data Err : Type 0 where
  sentinel : Sentinel → Err
  wrapped : Text → Err → Err
  foreign : Text → Err

abbrev pub same_sentinel : Sentinel → Sentinel → Bool
same_sentinel Sentinel.pipeline_cancelled Sentinel.pipeline_cancelled = true
same_sentinel Sentinel.ai_timeout Sentinel.ai_timeout = true
same_sentinel Sentinel.dispatch_interrupted Sentinel.dispatch_interrupted = true
same_sentinel Sentinel.lock_failed Sentinel.lock_failed = true
same_sentinel _ _ = false

-- errors.Is, which looks through the wrapping
unfoldable pub is : Err → Sentinel → Bool
is (Err.sentinel s) t = same_sentinel s t
is (Err.wrapped label e) t = is e t
is (Err.foreign label) t = false
