-- ===== src/Delivery/Message.antt =====
-- A burst of messages from the endpoint to the customer.
use evo_bot_runtime.Prelude.Text.{Text}
use evo_bot_runtime.Arrival.{Inbox}
use evo_bot_runtime.Arrival.Burst.{Burst}
use evo_bot_runtime.Delivery.{Runtime, World}

-- The world of the calls with the service behind a burst, on a store in which time has passed.
abbrev pub later : (rt : Runtime) → Inbox rt.repository → rt.repository.Db → World rt → World rt
later rt t db w = record w { service = record t.service { db = db } }
