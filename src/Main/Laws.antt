-- ===== src/Main/Laws.antt =====
-- A program that has started.
use evo_bot_runtime.Prelude.{
  ℕ, false, [], Option, none, Result, ok, ◌≡◌, refl, arith, inl, inr, Result-cases,
}
use evo_bot_runtime.Prelude.Text.{Text, codes, is_empty, text_eq}
use evo_bot_runtime.Errors.{Err}
use evo_bot_runtime.Config.{Environment, load, load-required}
use evo_bot_runtime.Model.{MessageEvent}
use evo_bot_runtime.Repository.{Repository}
use evo_bot_runtime.Handler.{unauthorized, post_events}
use evo_bot_runtime.Service.Recovery.{start}
use evo_bot_runtime.Service.Interleaving.{new_service, Reach, started}
use evo_bot_runtime.Main.{Program, start_up}

-- The program serves: it has a secret, that of the environment, and its service is one that `Start` has
-- left without an error.
record Serving (r : Repository) (env : Environment) (prog : Program r) : Type 0 where
  pub secret : prog.secret ≡ env (codes "BOT_RUNTIME_SECRET")
  pub full : is_empty prog.secret ≡ false
  pub reached : Reach r prog.service

module _ (r : Repository) where
  start_up-Serving :
      (env : Environment) (parse_url : Text → Result Err r.Db) (now : ℕ) (prog : Program r)
      → start_up r env parse_url now ≡ ok prog
      → Serving r env prog
  unfolding start_up
  start_up-Serving env parse_url now prog h = elim (Result-cases (load env)) [
    | inr (x, e) ↦ absurd (ground arith)
    | inl (cfg, e) ↦ elim (Result-cases (parse_url cfg.redis_url)) [
      | inr (x, f) ↦ absurd (ground arith)
      | inl (db, f) ↦ elim (Result-cases (r.ping db).1) [
        | inr (x, g) ↦ absurd (ground arith)
        | inl (done, g) ↦
            let begun = start r (new_service r (r.ping db).0 now) in
            elim (Result-cases begun.1) [
              | inr (x, k) ↦ absurd (ground arith)
              | inl (unit, k) ↦
                  let secret = (load-required env cfg e).0 in
                  let service : prog.service ≡ begun.0 = ground arith in
                  record {
                    secret = ground (arith, secret);
                    full = ground (arith, secret);
                    reached = rw service (started (r.ping db).0 now);
                  }
            ]
      ]
    ]
  ]

  -- A program that has started, which it has only with a secret in its environment, answers a request
  -- without a secret by 401, whatever its body: nothing is stored for it, and no goroutine launched.
  pub start_up-unauthorized :
      (env : Environment) (parse_url : Text → Result Err r.Db) (now : ℕ) (prog : Program r)
      (body : Option MessageEvent) (later : ℕ) (db : r.Db)
      → start_up r env parse_url now ≡ ok prog
      → (prog.secret ≡ env (codes "BOT_RUNTIME_SECRET"))
        × (post_events r prog.secret [] body later db
            ≡ record { db = db; response = unauthorized; launched = none })
  unfolding post_events text_eq
  start_up-unauthorized env parse_url now prog body later db h =
      let s = start_up-Serving env parse_url now prog h in
      let differ : text_eq [] prog.secret ≡ false = ground (arith, s.full) in
      (s.secret, rw differ refl)
