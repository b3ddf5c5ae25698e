-- ===== src/Tests/Expiries.antt =====
-- The theorems on the poller and on recovery, applied to a turn whose timer has expired, over a store
-- whose timers run and whose locks exclude each other.
use evo_bot_runtime.Prelude.{ℕ, false, true, [], ◌∷◌, some, ◌≡◌, refl, inl}
use evo_bot_runtime.Prelude.Text.{text_eq}
use evo_bot_runtime.Prelude.Assoc.{lookup, insert, erase}
use evo_bot_runtime.Model.{PipelineState}
use evo_bot_runtime.Keys.{pair_key, format, digits}
use evo_bot_runtime.Repository.{Repository}
use evo_bot_runtime.Service.State.{Entry, cancel_pair, store_entry, abandon, new_entry}
use evo_bot_runtime.Service.Process.{
  S, in_debounce, start_debounce, begin_turn, first_turn, process_locked, process,
}
use evo_bot_runtime.Service.Recovery.{poll, start, recover_all, entry_of_state}
use evo_bot_runtime.Service.Refinement.{turn_state}
use evo_bot_runtime.Service.Interleaving.{Reach, started, next, process_event, world, new_service}
use evo_bot_runtime.Service.Progress.Poll.{poll-Polled}
use evo_bot_runtime.Service.Progress.Growth.{Polled}
use evo_bot_runtime.Service.Progress.Relaunch.{start-Polled}
use evo_bot_runtime.Debounce
use evo_bot_runtime.Tests.Store.{
  no_store, stored_cell, expire, store_of, store_contract, store-Serves, store-Spares, is_idle,
}
use evo_bot_runtime.Tests.Turns.{hello, hello-IsInt64Pair, pair}
use evo_bot_runtime.Tests.Arrivals.{kept, kept_contract}

-- a turn that waits, and its store once the timer has expired
abbrev pub waiting : S kept
waiting = (process kept hello (start kept (new_service kept no_store 100)).0).0

abbrev pub expired : S kept
expired = record waiting { db = expire waiting.db; now = 105 }

abbrev pub entry : Entry
entry = new_entry 0 hello

pub hello_found : lookup (pair_key pair) expired.entries ≡ some entry
unfolding process process_locked first_turn begin_turn start_debounce cancel_pair store_entry
    abandon Debounce.start lookup erase insert pair_key format digits text_eq start recover_all
hello_found = refl

pub hello_waits : in_debounce (stored_cell expired.db pair).state ≡ true
unfolding process process_locked first_turn begin_turn start_debounce cancel_pair store_entry
    abandon Debounce.start lookup erase insert pair_key format digits text_eq start recover_all
hello_waits = refl

pub pair_idle : is_idle pair expired.db ≡ true
unfolding process process_locked first_turn begin_turn start_debounce cancel_pair store_entry
    abandon Debounce.start lookup erase insert pair_key format digits text_eq start recover_all
pair_idle = refl

hello_runs : expired.stopped ≡ false
unfolding process process_locked first_turn begin_turn start_debounce cancel_pair store_entry
    abandon Debounce.start lookup start recover_all
hello_runs = refl

expired-Reach : Reach kept expired
expired-Reach =
    next (next (started no_store 100) (process_event hello _ hello-IsInt64Pair))
      (world (expire waiting.db) 105 waiting)

poll-Polled_example : Polled stored_cell pair entry expired (poll kept expired)
poll-Polled_example =
    poll-Polled kept kept_contract pair hello-IsInt64Pair refl (store-Serves [] pair)
      (store-Spares [] pair hello-IsInt64Pair) entry expired expired-Reach hello_runs hello_found
      hello_waits pair_idle

-- the store after a restart, whose scan finds the pair
abbrev scanned : Repository
scanned = store_of (pair ∷ [])

abbrev stored_state : PipelineState
stored_state = turn_state hello 100

stored_hello : (stored_cell expired.db pair).state ≡ some stored_state
unfolding process process_locked first_turn begin_turn start_debounce cancel_pair store_entry
    abandon Debounce.start lookup erase insert pair_key format digits text_eq start recover_all
stored_hello = refl

start-Polled_example :
    (d : ℕ) × Polled stored_cell pair
      (entry_of_state d stored_state)
      (new_service scanned expired.db 200)
      (start scanned (new_service scanned expired.db 200)).0
start-Polled_example =
    start-Polled scanned (store_contract (pair ∷ []) (hello-IsInt64Pair, tt)) pair hello-IsInt64Pair
      (store-Serves (pair ∷ []) pair) (store-Spares (pair ∷ []) pair hello-IsInt64Pair) stored_state
      refl (pair ∷ []) expired.db 200 refl (inl refl) stored_hello pair_idle
