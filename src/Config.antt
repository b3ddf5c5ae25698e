-- ===== src/Config.antt =====
-- internal/config/config.go: the settings, read from the environment.
use evo_bot_runtime.Prelude.{
  false, ◌++◌, Result, ok, err, if◌then◌else◌, ◌≡◌, arith, inl, inr, Result-cases,
}
use evo_bot_runtime.Prelude.Int.{ℤ, pos}
use evo_bot_runtime.Prelude.Text.{Text, codes, is_empty}
use evo_bot_runtime.Errors.{Err}
use evo_bot_runtime.Keys.{ParsedInt, parse_int}

-- `Config`
pub record Settings : Type 0 where
  pub listen_addr : Text
  pub redis_url : Text
  pub bot_runtime_secret : Text
  pub ai_call_timeout_seconds : ℤ
  pub ai_call_max_retries : ℤ
  pub ai_call_retry_base_ms : ℤ

-- os.Getenv, "" for a variable that is not set
abbrev pub Environment : Type 0
Environment = Text → Text

unfoldable pub must_get_env : Environment → Text → Result Err Text
must_get_env env key =
    if is_empty (env key)
    then err (Err.foreign (codes "missing required environment variable: " ++ key))
    else ok (env key)

-- strconv.Atoi, which fails where ParseInt fails
abbrev atoi : Text → ParsedInt → Result Err ℤ
atoi key parsed =
    if parsed.failed
    then err (Err.foreign (codes "invalid integer for environment variable " ++ key))
    else ok parsed.number

unfoldable pub get_env_int_or_default : Environment → Text → ℤ → Result Err ℤ
get_env_int_or_default env key default_value =
    if is_empty (env key) then ok default_value else atoi key (parse_int (env key))

infixl 5 ◌>>=◌
abbrev ◌>>=◌ : {A B : Type 0} → Result Err A → (A → Result Err B) → Result Err B
ok a >>= f = f a
err e >>= f = err e

unfoldable pub load : Environment → Result Err Settings
unfolding must_get_env get_env_int_or_default
load env = do
  addr ← must_get_env env (codes "LISTEN_ADDR")
  url ← must_get_env env (codes "REDIS_URL")
  secret ← must_get_env env (codes "BOT_RUNTIME_SECRET")
  timeout ← get_env_int_or_default env (codes "AI_CALL_TIMEOUT_SECONDS") (pos 90)
  retries ← get_env_int_or_default env (codes "AI_CALL_MAX_RETRIES") (pos 2)
  base ← get_env_int_or_default env (codes "AI_CALL_RETRY_BASE_MS") (pos 200)
  ok (record {
    listen_addr = addr;
    redis_url = url;
    bot_runtime_secret = secret;
    ai_call_timeout_seconds = timeout;
    ai_call_max_retries = retries;
    ai_call_retry_base_ms = base;
  })

must_get_env-full :
    (env : Environment) (key v : Text)
    → must_get_env env key ≡ ok v
    → (is_empty v ≡ false) × (v ≡ env key)
unfolding must_get_env
must_get_env-full env key v h = ground arith

-- Settings that were loaded have the address, the URL and the secret of the environment, and none of
-- these is empty: no request is authenticated by an empty secret.
pub load-required :
    (env : Environment) (s : Settings)
    → load env ≡ ok s
    → ((is_empty s.bot_runtime_secret ≡ false)
        × (s.bot_runtime_secret ≡ env (codes "BOT_RUNTIME_SECRET")))
      × ((is_empty s.listen_addr ≡ false) × (s.listen_addr ≡ env (codes "LISTEN_ADDR")))
      × ((is_empty s.redis_url ≡ false) × (s.redis_url ≡ env (codes "REDIS_URL")))
unfolding load
load-required env s h = elim (Result-cases (must_get_env env (codes "LISTEN_ADDR"))) [
  | inr (x, e) ↦ absurd (ground arith)
  | inl (a, e) ↦ elim (Result-cases (must_get_env env (codes "REDIS_URL"))) [
    | inr (x, f) ↦ absurd (ground arith)
    | inl (u, f) ↦ elim (Result-cases (must_get_env env (codes "BOT_RUNTIME_SECRET"))) [
      | inr (x, g) ↦ absurd (ground arith)
      | inl (k, g) ↦ ground (
        arith,
        must_get_env-full env (codes "LISTEN_ADDR") a e,
        must_get_env-full env (codes "REDIS_URL") u f,
        must_get_env-full env (codes "BOT_RUNTIME_SECRET") k g,
      )
    ]
  ]
]
