-- ===== src/Tests/Calls.antt =====
-- The theorems on the calls to other services, applied to services whose replies are fixed.
use evo_bot_runtime.Prelude.{
  ℕ, ◌+◌, ◌*◌, ◌≤◌, true, false, List, [], ◌∷◌, ◌++◌, none, some, ok, err, ◌≡◌, refl, arith,
}
use evo_bot_runtime.Prelude.Int.{pos}
use evo_bot_runtime.Prelude.Text.{Text, codes, text_eq}
use evo_bot_runtime.Errors.{Err}
use evo_bot_runtime.Model.{MessageEvent}
use evo_bot_runtime.Dispatch.Engine.{Post, Client, ClientLaws, dispatch}
use evo_bot_runtime.Dispatch.Engine.Laws.{Posted, answer_posts, dispatch-Posted}
use evo_bot_runtime.Handler.{post_events, handle_event}
use evo_bot_runtime.Handler.Laws.{Admitted, post_events-Admitted}
use evo_bot_runtime.Validation.{validate}
use evo_bot_runtime.Ai.Wire.{A2aRequest}
use evo_bot_runtime.Ai.Retry.{Exchange, Adapter, failed, replied, Network, call, max_backoff}
use evo_bot_runtime.Ai.Retry.Laws.{Ledger, call-ledger}
use evo_bot_runtime.Ai.Retry.Trace.{Record, Settles, call-Settles}
use evo_bot_runtime.Ai.Files.{
  answered, Platform, allowed_media_hosts, build_file_parts, max_attachments_total_bytes,
}
use evo_bot_runtime.Ai.Files.Laws.{Contacts, OnlyAllowed, build_file_parts-OnlyAllowed}
use evo_bot_runtime.Ai.Files.Budget.{Fits, build_file_parts-Fits}
use evo_bot_runtime.Tests.Memory.{memory, memory_contract, no_cells, cell_of}
use evo_bot_runtime.Tests.Turns.{settings, message}

-- Postbacks are answered by 200; the world is what was posted.
abbrev pub crm : Client
crm = record {
  World = List Post;
  new_request = λ p w. (w, ok tt);
  do_post = λ p w. (w ++ (p ∷ []), ok 200);
  is_done = λ w. (w, false);
  wait = λ ms w. (w, false);
}

abbrev pub crm_laws : ClientLaws crm
crm_laws = record {
  sent = λ w. w;
  new_request_sends = λ p w. refl;
  do_post_sends = λ p w. refl;
  is_done_sends = λ w. refl;
  wait_sends = λ ms w. refl;
}

abbrev answer : Text
answer = codes "look here https://x.io/a.png and there"

dispatch-Posted_example :
    Posted crm crm_laws
      (answer_posts (codes "s") answer (settings 0) (codes "http://crm"))
      []
      (dispatch crm (codes "s") answer (settings 0) (codes "http://crm") [])
dispatch-Posted_example =
    dispatch-Posted crm crm_laws (codes "s") answer (codes "http://crm") (settings 0) []

abbrev hello : MessageEvent
hello = message 5 (codes "hello")

hello_launched :
    (post_events (memory false true) (codes "s") (codes "s") (some hello) 100 no_cells).launched
    ≡ some hello
unfolding post_events handle_event validate text_eq
hello_launched = refl

post_events-Admitted_example :
    Admitted cell_of
      (codes "s")
      (codes "s")
      hello
      100
      no_cells
      (post_events (memory false true) (codes "s") (codes "s") (some hello) 100 no_cells)
post_events-Admitted_example =
    post_events-Admitted (memory false true) (memory_contract false true) (codes "s") (codes "s")
      (some hello) 100 no_cells hello hello_launched

-- Every attempt fails on the network; the world counts the attempts and the time waited.
abbrev pub outage : Network
outage = record {
  World = ℕ × ℕ;
  exchange = λ w. ((w.0 + 1, w.1), failed false false (Err.foreign (codes "reset")));
  random = λ k w. (w, 0);
  wait = λ d w. ((w.0, w.1 + d), false);
}

pub at_most_itself : (n : ℕ) → n ≤ n
at_most_itself n = omega arith

abbrev pub outage_ledger : Ledger outage
outage_ledger = record {
  posts = λ w. w.0;
  waited = λ w. w.1;
  exchange_posts = λ w. refl;
  exchange_waited = λ w. refl;
  random_below = λ k w h. h;
  random_posts = λ k w. refl;
  random_waited = λ k w. refl;
  wait_posts = λ d w. refl;
  wait_waited = λ d w. at_most_itself (w.1 + d);
}

abbrev pub two_retries : Adapter
two_retries = record { timeout_secs = pos 30; max_retries = 2; retry_base_delay = 200_000_000 }

call-ledger_example :
    ((call outage two_retries (0, 0)).0.0 ≤ 3)
    × ((call outage two_retries (0, 0)).0.1 ≤ 2 * max_backoff)
call-ledger_example = call-ledger outage outage_ledger two_retries (0, 0)

-- The first attempt fails on the network, and the next is refused by 400, which is not retried; the
-- world is what came of the posts.
abbrev refusal_reply : List Exchange → Exchange
refusal_reply [] = failed false false (Err.foreign (codes "reset"))
refusal_reply (x ∷ w) = replied 400 (err (Err.foreign (codes "refused")))

abbrev refusal : Network
refusal = record {
  World = List Exchange;
  exchange = λ w. (w ++ (refusal_reply w ∷ []), refusal_reply w);
  random = λ k w. (w, 0);
  wait = λ d w. (w, false);
}

abbrev refusal_record : Record refusal
refusal_record = record {
  log = λ w. w;
  exchange_log = λ w. refl;
  random_log = λ k w. refl;
  wait_log = λ d w. refl;
}

call-Settles_example :
    (x : Exchange) × (xs : List Exchange) × ((call refusal two_retries []).0 ≡ [] ++ (x ∷ xs))
    × Settles (x ∷ xs) (call refusal two_retries []).1
call-Settles_example = call-Settles refusal refusal_record two_retries [] (omega arith)

-- Every address is on the allowed host and answers one byte; the world is what was contacted.
abbrev pub files : Platform
files = record {
  World = List Text;
  parse_url = λ t. some (record { scheme = codes "https"; hostname = codes "crm"; path = t });
  parse_media_type = λ t. some t;
  type_by_extension = λ t. codes "image/png";
  path_ext = λ t. codes ".png";
  path_base = λ t. codes "a.png";
  encode_base64 = λ bytes. bytes;
  to_lower = λ t. t;
  budget_done = λ w. (w, false);
  fetch = λ check url limit w. (w ++ (url ∷ []), answered 200 (ok (1 ∷ [])) (codes "image/png"));
}

abbrev files_contacts : Contacts files
files_contacts = record {
  contacted = λ w. w;
  budget_contacts = λ w. refl;
  hops = λ check url limit w. ([], refl, tt);
}

abbrev pub picture : A2aRequest
picture = record {
  outgoing_url = codes "http://ai";
  contact_id = pos 3;
  conversation_id = pos 7;
  api_key = codes "key";
  message = codes "see";
  metadata = none;
  attachments =
      record {
        url = codes "https://crm/a.png";
        content_type = codes "image/png";
        file_type = codes "image";
      }
      ∷ [];
}

build_file_parts-OnlyAllowed_example :
    OnlyAllowed files files_contacts
      (allowed_media_hosts files (codes "crm"))
      []
      (build_file_parts files (codes "crm") picture []).0
build_file_parts-OnlyAllowed_example =
    build_file_parts-OnlyAllowed files files_contacts (codes "crm") picture []

build_file_parts-Fits_example :
    Fits files max_attachments_total_bytes (build_file_parts files (codes "crm") picture []).1
build_file_parts-Fits_example = build_file_parts-Fits files (codes "crm") picture []
