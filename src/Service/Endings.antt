-- ===== src/Service/Endings.antt =====
-- How the goroutine of a turn ends: what a failed turn says to the customer.
use evo_bot_runtime.Prelude.{
  false, [], ◌∷◌, ◌++◌, Option, none, some, ok, err, ◌≡◌, ◌≢◌, refl, arith, ◌⊎◌, inl, inr,
  Bool-cases, Option-cases,
}
use mathlib.Core.Path.{subst}
use evo_bot_runtime.Prelude.Text.{Text, trim_space, is_empty}
use evo_bot_runtime.Errors.{Err, Sentinel, is}
use evo_bot_runtime.Model.{PairId}
use evo_bot_runtime.Repository.{Repository}
use evo_bot_runtime.Service.State.{AiTask, Notice}
use evo_bot_runtime.Service.Process.{S, clear_state_with_log}
use evo_bot_runtime.Service.Stages.{
  Outcome, returns, panics, finish_ai, recover_pipeline, send_ai_failure_notice, notice_text,
  default_ai_failure_notice,
}

-- What a failed turn may say to the customer: one sentence that is not blank, to the address of the
-- event, for the pair and with the settings of the turn.
pub record Apology (env : Option Text) (t : AiTask) (n : Notice) : Type 0 where
  pub text : notice_text env ≡ some n.content
  pub spoken : trim_space n.content ≢ []
  pub address : n.postback_url ≡ t.postback_url
  pub reachable : n.postback_url ≢ []
  pub pair : n.pair ≡ t.pair
  pub cfg : n.cfg ≡ t.cfg

default_spoken : trim_space default_ai_failure_notice ≢ []
unfolding trim_space
default_spoken = cc

notice_text-spoken : (env : Option Text) (x : Text) → notice_text env ≡ some x → trim_space x ≢ []
unfolding notice_text
notice_text-spoken none x h =
    let same : default_ai_failure_notice ≡ x = cc in
    subst (λ (y : Text). trim_space y ≢ []) same default_spoken
notice_text-spoken (some v) x h = ground arith

module _ (r : Repository) where
  clear_state_with_log-rest :
      (p : PairId) (s : S r)
      → ((clear_state_with_log r p s).notices ≡ s.notices)
        × ((clear_state_with_log r p s).entries ≡ s.entries)
        × ((clear_state_with_log r p s).dispatch_tasks ≡ s.dispatch_tasks)
  unfolding clear_state_with_log
  clear_state_with_log-rest p s = (refl, refl, refl)

  notice_sent :
      (env : Option Text) (t : AiTask) (sent : Outcome (Unit {0})) (s : S r)
      → ((send_ai_failure_notice r env t sent s).notices ≡ s.notices)
        ⊎ ((n : Notice) × Apology env t n
            × ((send_ai_failure_notice r env t sent s).notices ≡ s.notices ++ (n ∷ [])))
  unfolding send_ai_failure_notice recover_pipeline clear_state_with_log
  notice_sent env t sent s = elim (Option-cases (notice_text env)) [
    | inl off ↦ inl (ground arith)
    | inr (text, on) ↦ elim (Bool-cases (is_empty t.postback_url)) [
      | inl nowhere ↦ inl (ground arith)
      | inr somewhere ↦ inr (
        record { pair = t.pair; content = text; cfg = t.cfg; postback_url = t.postback_url },
        record {
          text = on;
          spoken = notice_text-spoken env text on;
          address = refl;
          reachable = ground arith;
          pair = refl;
          cfg = refl;
        },
        ground arith,
      )
    ]
  ]

  -- The end of an AI stage says at most one thing to the customer besides the answer, and only if the
  -- adapter returned an error other than the cancellation of the turn: one notice, with the configured
  -- text or the default one, to the postback address of the event, which is not empty.
  pub finish_ai-notices :
      (env : Option Text) (t : AiTask) (out : Outcome Text) (sent : Outcome (Unit {0})) (s : S r)
      → ((finish_ai r env t out sent s).notices ≡ s.notices)
        ⊎ ((e : Err) × (n : Notice) × (out ≡ returns (err e))
            × (is e Sentinel.pipeline_cancelled ≡ false)
            × Apology env t n
            × ((finish_ai r env t out sent s).notices ≡ s.notices ++ (n ∷ [])))
  unfolding finish_ai recover_pipeline clear_state_with_log
  finish_ai-notices env t panics sent s = inl refl
  finish_ai-notices env t (returns (ok content)) sent s = inl (ground arith)
  finish_ai-notices env t (returns (err e)) sent s =
      elim (Bool-cases (is e Sentinel.pipeline_cancelled)) [
        | inl stop ↦ inl (rw stop refl)
        | inr go ↦ elim (notice_sent env t sent (clear_state_with_log r t.pair s)) [
          | inl quiet ↦ inl (ground arith)
          | inr (n, a, said) ↦ inr (e, n, refl, go, a, ground arith)
        ]
      ]
