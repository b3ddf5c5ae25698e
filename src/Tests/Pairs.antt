-- ===== src/Tests/Pairs.antt =====
-- The theorem on the other pairs, applied to two conversations of one contact.
use evo_bot_runtime.Prelude.{◌≡◌, ◌≢◌, arith, false, some, refl}
use evo_bot_runtime.Prelude.Int.{pos}
use evo_bot_runtime.Prelude.Text.{codes, text_eq}
use evo_bot_runtime.Model.{PairId, MessageEvent}
use evo_bot_runtime.Keys.RoundTrip.{IsInt64Pair}
use evo_bot_runtime.Service.State.{Service, pair_of, new_entry, cancel_pair, store_entry, abandon}
use evo_bot_runtime.Service.Process.{
  process, start_debounce, begin_turn, first_turn, process_locked,
}
use evo_bot_runtime.Service.Interleaving.{new_service, Reach, started, next, process_event}
use evo_bot_runtime.Prelude.Assoc.{lookup, insert, erase}
use evo_bot_runtime.Keys.{pair_key, format, digits}
use evo_bot_runtime.Repository.{Repository}
use evo_bot_runtime.Debounce
use evo_bot_runtime.Service.Recovery.{start, recover_all}
use evo_bot_runtime.Service.Neighbour.{process-neighbour}
use evo_bot_runtime.Service.Isolation.{process-elsewhere}
use evo_bot_runtime.Tests.Memory.{Cells, no_cells, memory, memory_contract, cell_of}
use evo_bot_runtime.Tests.Turns.{message}

abbrev hello : MessageEvent
hello = message 5 (codes "hello")

abbrev other_pair : PairId
other_pair = record { contact_id = pos 3; conversation_id = pos 8 }

hello-IsInt64Pair : IsInt64Pair (pair_of hello)
hello-IsInt64Pair = record { contact = ground arith; conversation = ground arith }

other-IsInt64Pair : IsInt64Pair other_pair
other-IsInt64Pair = record { contact = ground arith; conversation = ground arith }

pairs_differ : pair_of hello ≢ other_pair
pairs_differ = cc

abbrev idle : Service Cells
idle = new_service (memory false false) no_cells 100

process-elsewhere_example :
    cell_of (process (memory false false) hello idle).0.db other_pair ≡ cell_of no_cells other_pair
process-elsewhere_example =
    process-elsewhere (memory false false) (memory_contract false false) hello other_pair
      hello-IsInt64Pair other-IsInt64Pair pairs_differ idle

-- the other pair has a turn that is debounced
abbrev neighbour : MessageEvent
neighbour = record hello { conversation_id = pos 8 }

abbrev free : Repository
free = memory false false

abbrev busy : Service Cells
busy = (process free neighbour (start free idle).0).0

busy-Reach : Reach free busy
busy-Reach = next (started no_cells 100) (process_event neighbour _ other-IsInt64Pair)

busy_entry : lookup (pair_key other_pair) busy.entries ≡ some (new_entry 0 neighbour)
unfolding start recover_all process process_locked first_turn begin_turn start_debounce cancel_pair
    store_entry abandon Debounce.start lookup erase insert pair_key format digits text_eq
busy_entry = refl

process-neighbour_example :
    let t = (process free hello busy).0 in
    (cell_of t.db other_pair ≡ cell_of busy.db other_pair)
    × (lookup (pair_key other_pair) t.entries ≡ some (new_entry 0 neighbour))
    × (t.cancelled 0 ≡ busy.cancelled 0)
process-neighbour_example =
    process-neighbour free (memory_contract false false) hello other_pair (new_entry 0 neighbour)
      busy busy-Reach hello-IsInt64Pair other-IsInt64Pair pairs_differ busy_entry
