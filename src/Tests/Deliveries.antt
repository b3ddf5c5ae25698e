-- ===== src/Tests/Deliveries.antt =====
-- The theorems on the calls of a turn, applied to an AI service whose first reply is lost, to one that
-- never answers, and to a turn with both of its stages.
use evo_bot_runtime.Prelude.{
  ℕ, zero, suc, ◌+◌, ◌*◌, ◌≤◌, false, List, [], ◌∷◌, ◌++◌, none, some, ok, ◌≡◌, refl, arith,
}
use evo_bot_runtime.Prelude.Text.{codes}
use evo_bot_runtime.Errors.{Err}
use evo_bot_runtime.Ai.Wire.{A2aRequest}
use evo_bot_runtime.Ai.Retry.{Exchange, failed, replied, call}
use evo_bot_runtime.Ai.Retry.Laws.{Ledger}
use evo_bot_runtime.Ai.Adapter.{Sender, network_of, second, overall_ceiling, per_attempt, call_ai}
use evo_bot_runtime.Ai.Adapter.Laws.{Sent, SenderLaws, Posts, call_ai-Posts}
use evo_bot_runtime.Ai.Adapter.Deadline.{Clock, call-ceiling}
use evo_bot_runtime.Service.State.{new_entry}
use evo_bot_runtime.Delivery.{Runtime, World}
use evo_bot_runtime.Service.State.{new_entry}
use evo_bot_runtime.Debounce
use evo_bot_runtime.Tests.Store.{Store, expire}
use evo_bot_runtime.Tests.Expiries.{expired}
use evo_bot_runtime.Tests.Arrivals.{kept, both_processed}
use evo_bot_runtime.Tests.Calls.{
  crm, files, picture, outage, outage_ledger, two_retries, at_most_itself,
}
use evo_bot_runtime.Tests.Texts.{two_texts}

-- The first reply is lost, and the next one is an answer; the world is what was posted, how often, and
-- the time that was waited.
abbrev agent_reply : ℕ → Exchange
agent_reply zero = failed false false (Err.foreign (codes "reset"))
agent_reply (suc n) = replied 200 (ok two_texts)

abbrev agent : Sender
agent = record {
  World = List Sent × ℕ × ℕ;
  marshal = λ req. ok (1 ∷ 2 ∷ []);
  post = λ url api_key body w. (
    (w.0 ++ (record { url = url; api_key = api_key; body = body } ∷ []), w.1 + 1, w.2),
    agent_reply w.1,
  );
  random = λ k w. (w, 0);
  wait = λ d w. ((w.0, w.1, w.2 + d), false);
}

abbrev agent_laws : SenderLaws agent
agent_laws = record {
  sent = λ w. w.0;
  post_sends = λ url api_key body w. refl;
  random_sends = λ k w. refl;
  wait_sends = λ d w. refl;
}

abbrev agent_ledger : (req : A2aRequest) (body : List ℕ) → Ledger (network_of agent req body)
agent_ledger req body = record {
  posts = λ w. w.1;
  waited = λ w. w.2;
  exchange_posts = λ w. refl;
  exchange_waited = λ w. refl;
  random_below = λ k w h. h;
  random_posts = λ k w. refl;
  random_waited = λ k w. refl;
  wait_posts = λ d w. refl;
  wait_waited = λ d w. at_most_itself (w.2 + d);
}

call_ai-Posts_example :
    Posts files agent agent_laws
      (codes "crm")
      two_retries
      picture
      []
      ([], 0, 0)
      (call_ai files agent (codes "crm") two_retries picture [] ([], 0, 0)).1
call_ai-Posts_example =
    call_ai-Posts files agent agent_laws agent_ledger (codes "crm") two_retries picture []
      ([], 0, 0)

-- each attempt takes its whole 30 seconds
abbrev outage_clock : Clock outage outage_ledger (30 * second)
outage_clock = record {
  elapsed = λ w. w.0 * (30 * second) + w.1;
  exchange_elapsed = λ w. omega arith;
  random_elapsed = λ k w. refl;
  wait_elapsed = λ d w. omega arith;
}

outage_limit : overall_ceiling two_retries ≡ some 130_000_000_000
unfolding overall_ceiling per_attempt
outage_limit = refl

call-ceiling_example :
    (call outage two_retries (0, 0)).0.0 * (30 * second)
      + (call outage two_retries (0, 0)).0.1
      + 30 * second
    ≤ 0 + 130_000_000_000
call-ceiling_example =
    call-ceiling outage outage_ledger (30 * second) outage_clock two_retries 30 130_000_000_000
      (0, 0) refl refl (omega arith) outage_limit

abbrev runtime : Runtime
runtime = record {
  repository = kept;
  client = crm;
  platform = files;
  sender = agent;
  adapter = two_retries;
  secret = codes "s";
  media_hosts = codes "crm";
  failure_notice = none;
}

abbrev expired_world : World runtime
expired_world = record { service = expired; posts = []; downloads = []; requests = ([], 0, 0) }

-- the store behind the burst, once the timer has expired
abbrev burst_expired : Store
burst_expired = expire both_processed.service.db
