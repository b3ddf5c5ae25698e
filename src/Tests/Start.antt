-- ===== src/Tests/Start.antt =====
-- The theorems on the entry point, applied to a program that is started over the repository in memory.
use evo_bot_runtime.Prelude.{[], some, none, ok, ◌≡◌, refl}
use evo_bot_runtime.Prelude.Text.{codes}
use evo_bot_runtime.Prelude.Int.{pos}
use evo_bot_runtime.Ai.Retry.{new_ai_adapter}
use evo_bot_runtime.Config.{load}
use evo_bot_runtime.Keys.{parse_int}
use evo_bot_runtime.Handler.{unauthorized, post_events}
use evo_bot_runtime.Service.Recovery.{start}
use evo_bot_runtime.Service.Interleaving.{new_service}
use evo_bot_runtime.Main.{Program, start_up}
use evo_bot_runtime.Main.Laws.{start_up-unauthorized}
use evo_bot_runtime.Tests.Memory.{no_cells}
use evo_bot_runtime.Tests.Texts.{ones}
use evo_bot_runtime.Tests.Turns.{free, hello}

abbrev program : Program free
program = record {
  listen_addr = codes "1";
  adapter = new_ai_adapter (pos 1) (pos 1) (pos 1);
  secret = codes "1";
  service = (start free (new_service free no_cells 0)).0;
}

program_starts : start_up free ones (λ url. ok no_cells) 0 ≡ ok program
unfolding start_up load parse_int start new_ai_adapter
program_starts = refl

start_up-unauthorized_example :
    (codes "1" ≡ codes "1")
    × (post_events free (codes "1") [] (some hello) 100 no_cells
        ≡ record { db = no_cells; response = unauthorized; launched = none })
start_up-unauthorized_example =
    start_up-unauthorized free ones (λ url. ok no_cells) 0 program (some hello) 100 no_cells
      program_starts
