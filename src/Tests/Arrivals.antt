-- ===== src/Tests/Arrivals.antt =====
-- The theorems on requests, applied to two messages of one customer and one of
-- another, over a store whose timers run and whose locks exclude each other.
use evo_bot_runtime.Prelude.{[], ◌∷◌, some, ok, ◌≡◌, refl}
use evo_bot_runtime.Prelude.Int.{pos}
use evo_bot_runtime.Prelude.Text.{Text, codes, text_eq}
use evo_bot_runtime.Prelude.Assoc.{lookup, insert, erase}
use evo_bot_runtime.Model.{MessageEvent}
use evo_bot_runtime.Keys.{pair_key, format, digits}
use evo_bot_runtime.Validation.{validate}
use evo_bot_runtime.Repository.{Repository, Contract}
use evo_bot_runtime.Handler.{post_events, handle_event}
use evo_bot_runtime.Service.State.{cancel_pair, store_entry, abandon}
use evo_bot_runtime.Service.Process.{
  S, start_debounce, reset_debounce, begin_turn, first_turn, process_locked, process,
}
use evo_bot_runtime.Service.Refinement.{begin_cell}
use evo_bot_runtime.Service.Branches.{Replaced}
use evo_bot_runtime.Service.Interleaving.{new_service}
use evo_bot_runtime.Arrival.{Inbox, answered, handle, run_process}
use evo_bot_runtime.Arrival.Laws.{handle-Replaced}
use evo_bot_runtime.Arrival.Burst.{
  Burst, quiet, handled, processed, beside, gathered, Burst-gathered,
}
use evo_bot_runtime.Debounce
use evo_bot_runtime.Tests.Store.{no_store, stored_cell, store_of, store_contract}
use evo_bot_runtime.Tests.Turns.{message, hello, pair}

abbrev pub secret : Text
secret = codes "s"

abbrev pub again : MessageEvent
again = message 5 (codes "again")

abbrev pub stranger : MessageEvent
stranger = record hello { contact_id = pos 9 }

abbrev pub kept : Repository
kept = store_of []

abbrev pub kept_contract : Contract kept
kept_contract = store_contract [] tt

-- a service with nothing of any pair
abbrev pub quiet_inbox : Inbox kept
quiet_inbox = record { service = new_service kept no_store 100; pending = [] }

abbrev pub one_handled : Inbox kept
one_handled = handle kept secret secret (some hello) quiet_inbox

abbrev pub both_handled : Inbox kept
both_handled = handle kept secret secret (some again) one_handled

-- a stranger's message is processed in between
abbrev stranger_processed : Inbox kept
stranger_processed = record both_handled {
  service = (process kept stranger both_handled.service).0;
}

abbrev pub one_processed : Inbox kept
one_processed = run_process kept hello (again ∷ []) stranger_processed

abbrev pub both_processed : Inbox kept
both_processed = run_process kept again [] one_processed

hello_launched : (post_events kept secret secret (some hello) 100 no_store).launched ≡ some hello
unfolding post_events handle_event validate text_eq
hello_launched = refl

again_launched :
    (post_events kept secret secret
      (some again)
      one_handled.service.now
      one_handled.service.db).launched
    ≡ some again
unfolding handle post_events handle_event validate text_eq
again_launched = refl

strangers_apart :
    stored_cell stranger_processed.service.db pair ≡ stored_cell both_handled.service.db pair
unfolding handle post_events handle_event validate text_eq process process_locked first_turn
    begin_turn start_debounce cancel_pair store_entry abandon Debounce.start lookup erase insert
    pair_key format digits
strangers_apart = refl

hello_waiting : stranger_processed.pending ≡ hello ∷ again ∷ []
unfolding handle post_events handle_event validate text_eq
hello_waiting = refl

hello_done : (process kept hello stranger_processed.service).1 ≡ ok tt
unfolding handle post_events handle_event validate text_eq process process_locked first_turn
    begin_turn start_debounce cancel_pair store_entry abandon Debounce.start lookup erase insert
    pair_key format digits
hello_done = refl

again_waiting : one_processed.pending ≡ again ∷ []
unfolding run_process
again_waiting = refl

again_done : (process kept again one_processed.service).1 ≡ ok tt
unfolding run_process handle post_events handle_event validate text_eq process process_locked
    first_turn begin_turn start_debounce reset_debounce cancel_pair store_entry abandon
    Debounce.start Debounce.reset lookup erase insert pair_key format digits
again_done = refl

-- both handlers run ahead of both goroutines
pub both-Burst : Burst kept stored_cell secret pair quiet_inbox (again ∷ hello ∷ []) both_processed
both-Burst =
    processed again [] []
      (processed hello [] (again ∷ [])
        (beside stranger_processed.service
          (handled again secret (handled hello secret quiet refl hello_launched) refl
            again_launched)
          strangers_apart)
        hello_waiting refl refl hello_done)
      again_waiting refl refl again_done

Burst-gathered_example :
    let v = gathered (again ∷ hello ∷ []) (stored_cell no_store pair) in
    ((stored_cell both_processed.service.db pair).buffer ≡ v.buffer)
    × ((stored_cell both_processed.service.db pair).media ≡ v.media)
Burst-gathered_example = Burst-gathered kept kept_contract secret pair quiet_inbox refl both-Burst

-- the state in which the first message has opened a turn
abbrev opened : S kept
opened = (process kept hello one_handled.service).0

one_launched :
    (post_events kept secret secret (some again) opened.now opened.db).launched ≡ some again
unfolding handle run_process post_events handle_event validate text_eq process process_locked
    first_turn begin_turn start_debounce reset_debounce cancel_pair store_entry abandon
    Debounce.start Debounce.reset lookup erase insert pair_key format digits
one_launched = refl

again_replaces : (process kept again (answered kept secret secret (some again) opened)).1 ≡ ok tt
unfolding handle post_events handle_event validate text_eq process process_locked first_turn
    begin_turn start_debounce cancel_pair store_entry abandon Debounce.start lookup erase insert
    pair_key format digits
again_replaces = refl

handle-Replaced_example :
    let u = answered kept secret secret (some again) opened in
    (stored_cell (process kept again u).0.db pair
      ≡ begin_cell again u.now (stored_cell opened.db pair))
    × Replaced stored_cell again u (process kept again u).0
handle-Replaced_example =
    handle-Replaced kept kept_contract secret secret again opened
      (answered kept secret secret (some again) opened) one_launched refl again_replaces
