-- ===== src/Main.antt =====
-- cmd/server/main.go: how the program starts. The Redis client and the HTTP server are
-- parameters; log.Fatalf is an error.
pub mod Laws
use evo_bot_runtime.Prelude.{ℕ, Result, ok, err}
use evo_bot_runtime.Prelude.Text.{Text, codes}
use evo_bot_runtime.Errors.{Err}
use evo_bot_runtime.Config.{Environment, Settings, load}
use evo_bot_runtime.Repository.{Repository}
use evo_bot_runtime.Ai.Retry.{Adapter, new_ai_adapter}
use evo_bot_runtime.Service.Process.{S}
use evo_bot_runtime.Service.Recovery.{start}
use evo_bot_runtime.Service.Interleaving.{new_service}

-- The program once it serves: the pipeline service, the adapter, and the secret of the dispatch engine
-- and of the endpoint.
pub record Program (r : Repository) : Type 0 where
  pub listen_addr : Text
  pub adapter : Adapter
  pub secret : Text
  pub service : S r

module _ (r : Repository) where
  abbrev after_start : Settings → S r × Result Err (Unit {0}) → Result Err (Program r)
  after_start cfg (s, err e) = err (Err.wrapped (codes "pipeline service failed to start") e)
  after_start cfg (s, ok done) = ok (record {
    listen_addr = cfg.listen_addr;
    adapter =
        new_ai_adapter cfg.ai_call_timeout_seconds cfg.ai_call_max_retries
          cfg.ai_call_retry_base_ms;
    secret = cfg.bot_runtime_secret;
    service = s;
  })

  abbrev after_ping : Settings → ℕ → r.Db × Result Err (Unit {0}) → Result Err (Program r)
  after_ping cfg now (db, err e) = err (Err.wrapped (codes "redis connection failed") e)
  after_ping cfg now (db, ok done) = after_start cfg (start r (new_service r db now))

  abbrev after_parse : Settings → ℕ → Result Err r.Db → Result Err (Program r)
  after_parse cfg now (err e) = err (Err.wrapped (codes "invalid REDIS_URL") e)
  after_parse cfg now (ok db) = after_ping cfg now (r.ping db)

  abbrev after_load : (Text → Result Err r.Db) → ℕ → Result Err Settings → Result Err (Program r)
  after_load parse_url now (err e) = err (Err.wrapped (codes "config") e)
  after_load parse_url now (ok cfg) = after_parse cfg now (parse_url cfg.redis_url)

  -- the steps of `main` up to the launch of the server; `parse_url` is redis.ParseURL with
  -- redis.NewClient
  unfoldable pub start_up : Environment → (Text → Result Err r.Db) → ℕ → Result Err (Program r)
  unfolding load start new_ai_adapter
  start_up env parse_url now = after_load parse_url now (load env)
