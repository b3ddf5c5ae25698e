-- ===== src/Lib.antt =====
-- The bot runtime: it takes the messages of customers from the CRM, gathers what a customer writes in
-- short order, asks an AI service for one answer, and posts the answer back in parts.
--
-- A message comes in at the event endpoint (pkg/pipeline/handler), which checks the secret and the event,
-- stores that it arrived, and launches `Process` of the pipeline service (pkg/pipeline/service). The
-- service keeps a state per pair of contact and conversation in a repository (pkg/pipeline/repository) and
-- an entry per pair in memory. A new turn is debounced (pkg/debounce): its messages are buffered until a
-- timer has expired, which a poller notices. Then the AI stage calls the adapter (pkg/ai), and the
-- dispatch stage posts the answer (pkg/dispatch). A message that arrives in these stages cancels the turn.
--
-- The files and the code:
-- Model, Validation: pkg/pipeline/model/pipeline.go. Errors: internal/errors/errors.go. Config:
--   internal/config/config.go.
-- Keys: `pairKey` and `parsePairKey` of the service, the Redis keys of the repository and the
--   reading of a state key in `ScanStates`; Keys/RoundTrip, Bounds and Injective have the laws.
-- Repository: the interface, and the contract that its clients rely on, on the cell of a pair (its
--   state, its text buffer and its media). Repository/Redis: redis_pipeline_repository.go over a
--   server and a codec that are parameters (Repository/Server states what is relied on); Separation,
--   CellWrites and RedisContract are on the contract, and Scanned is on the recovery scan.
-- Debounce: debounce_engine.go.
-- Service/State, Process, Stages, Recovery: pipeline_service.go. State has the memory of the service
--   with its contexts and goroutines; Process has `Process`, `startDebounce`, `skipDebounce`,
--   `resetDebounce`, `advanceToAI` and `Cancel`; Stages has `runAIStage`, `runDispatchStage` and the
--   failure notice; Recovery has `Start`, `pollDebounceExpiry` and `Shutdown`. The other files below
--   Service have the laws: Refinement and Isolation on the store, Opening, Branches and Turn on the
--   memory, Neighbour on other pairs, Once on the launch of the AI stage, Endings on the notices,
--   Restart on recovery, Contexts, Consistency and Interleaving on all interleavings, Races on
--   goroutines that end late, Progress and the files below it on the tick of the poller, and the start
--   of a program, that find an expired timer: Serves says in which states a store serves a pair, with
--   its timer expired and its lock free, and Idle that other pairs do not matter.
-- Arrival: a request, `handleEvent` up to its `go` statement, and the goroutine, `runProcess`, as
--   two steps. A goroutine that was launched is pending, and runs after any other steps. Burst is on
--   many messages, Lost on one that meets a held lock.
-- Delivery: the stages of a turn with the calls that they make, `runAIStage` with `Call` and
--   `runDispatchStage` with `Dispatch`; Message begins at the endpoint.
-- Dispatch/Segment, Media, Engine: dispatch_engine.go, its segmentation, its media links and its
--   posts. Segment/Joins and MinSize are on neighbouring parts, Media/Urls on the regular expression.
-- Ai/Wire: pkg/ai/model/a2a.go. Ai/Request, Files, Retry, Response, Identity: the parts of
--   ai_adapter.go; Ai/Retry/Trace is on the attempts of a call; Ai/Adapter: `Call` as a whole, with
--   its time limits.
-- Handler: handler.go and middleware.go. Main: cmd/server/main.go, up to the server.
-- Tests: the parameters as executable functions, and the theorems at concrete inputs.
--
-- How the code is modelled. A Go string is the list of its code points. A call that changes the store and
-- may fail is a function from a state to a state and a result, composed by do blocks in the order of the
-- source. A context with its cancel function is a number; the set of cancelled ones is part of the state.
-- A goroutine is a record of its arguments in the state, and its end is a step that takes the outcome of
-- its call: an answer, an error, or a panic. Between two steps the store may change in any way, which
-- covers the expiry of keys and other instances. A call of `Process` is one step: per pair the lock
-- orders the calls, and the keys of different pairs are different. The writes that the code makes without
-- the lock, the handler's and those at the end of a stage, fall between these steps, not inside one.
--
-- Integers are ℤ over the native numbers. `ParseInt` has the bounds of int64, and the backoff shifts in
-- 64 bits. The only fuel is that of the decimal digits: a number has at most as many digits as its value
-- plus one, which is the fuel given. The loops of the adapter and of the dispatch recurse on the attempts
-- and on the parts that are left.
--
-- Not modelled: the values of float64 beyond what the code observes of them, HTTP, JSON, net/url, mime and
-- math/rand, which are parameters, the overflow of a debounce time in nanoseconds, 2^63 - 1 retries,
-- where the number of attempts wraps, log lines, signals, srv.Shutdown with its time limit, and the test
-- helpers. That the deadline of a context has passed appears as an outcome of the calls that it
-- bounds; the lengths of the adapter's limits are computed as the code does.
pub mod Prelude
pub mod Errors
pub mod Model
pub mod Validation
pub mod Keys
pub mod Monad
pub mod Repository
pub mod Debounce
pub mod Ai
pub mod Dispatch
pub mod Service
pub mod Handler
pub mod Arrival
pub mod Delivery
pub mod Config
pub mod Main
pub mod Tests
