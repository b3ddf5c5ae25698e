-- ===== src/Tests/Refusals.antt =====
-- The theorem on a lost message, applied to a turn that is being debounced, a message that meets a held
-- lock, and one that comes after the release of the lock and the expiry of the timer.
use evo_bot_runtime.Prelude.{true, false, some, ok, ◌≡◌, refl}
use evo_bot_runtime.Prelude.Text.{codes, text_eq}
use evo_bot_runtime.Prelude.Assoc.{lookup, insert, erase}
use evo_bot_runtime.Errors.{Err, Sentinel}
use evo_bot_runtime.Model.{MessageEvent}
use evo_bot_runtime.Keys.{pair_key, format, digits}
use evo_bot_runtime.Validation.{validate}
use evo_bot_runtime.Handler.{post_events, handle_event}
use evo_bot_runtime.Service.State.{cancel_pair, store_entry, abandon}
use evo_bot_runtime.Service.Process.{
  S, start_debounce, reset_debounce, begin_turn, first_turn, process_locked, process, advance_to_ai,
}
use evo_bot_runtime.Service.Recovery.{start, recover_all}
use evo_bot_runtime.Service.Refinement.{begin_cell}
use evo_bot_runtime.Arrival.{answered}
use evo_bot_runtime.Arrival.Lost.{lost_message}
use evo_bot_runtime.Debounce
use evo_bot_runtime.Tests.Store.{expire, stored_cell}
use evo_bot_runtime.Tests.Turns.{message, pair}
use evo_bot_runtime.Tests.Arrivals.{secret, again, kept, kept_contract}
use evo_bot_runtime.Tests.Expiries.{waiting}

abbrev third : MessageEvent
third = message 5 (codes "third")

-- the lock is held by another when the goroutine of the message runs
abbrev refused : S kept
refused =
    let s = answered kept secret secret (some again) waiting in
    record s { db = record s.db { locks = λ k. true } }

-- the lock is released, and the timer has expired
abbrev released : S kept
released =
    let s = (process kept again refused).0 in
    record s { db = record (expire s.db) { locks = λ k. false }; now = 200 }

abbrev next_arrived : S kept
next_arrived = answered kept secret secret (some third) released

again_launched :
    (post_events kept secret secret (some again) waiting.now waiting.db).launched ≡ some again
unfolding post_events handle_event validate text_eq
again_launched = refl

third_launched :
    (post_events kept secret secret (some third) released.now released.db).launched ≡ some third
unfolding post_events handle_event validate text_eq
third_launched = refl

unchanged : stored_cell released.db pair ≡ stored_cell (process kept again refused).0.db pair
unchanged = refl

third_done : (process kept third next_arrived).1 ≡ ok tt
unfolding post_events handle_event validate text_eq process process_locked first_turn begin_turn
    start_debounce reset_debounce cancel_pair store_entry abandon Debounce.start Debounce.reset
    lookup erase insert pair_key format digits start recover_all
third_done = refl

lost_message_example :
    ((advance_to_ai kept pair released).ai_tasks ≡ released.ai_tasks)
    × (stored_cell (process kept third next_arrived).0.db pair
        ≡ begin_cell third 200 (stored_cell waiting.db pair))
lost_message_example =
    lost_message kept kept_contract secret again third refl waiting refused released next_arrived
      (Err.sentinel Sentinel.lock_failed) secret secret again_launched refl refl unchanged
      third_launched refl third_done
