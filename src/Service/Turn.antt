-- ===== src/Service/Turn.antt =====
-- What `Process` does to the memory of the service: the entry, its context and the goroutines.
use evo_bot_runtime.Prelude.{true, ok, err, ◌≡◌, refl, arith, ◌⊎◌, inl, inr, Result-cases}
use evo_bot_runtime.Prelude.Text.{codes}
use evo_bot_runtime.Errors.{Err, Sentinel}
use evo_bot_runtime.Model.{MessageEvent}
use evo_bot_runtime.Repository.{Repository, Contract}
use evo_bot_runtime.Service.State.{pair_of}
use evo_bot_runtime.Service.Process.{S, by_state, process_locked, process, release}
use evo_bot_runtime.Service.Branches.{
  opens_turn, Replaced, Failed, Opened-between, by_state-Replaced, by_state-Failed,
}

module _ (r : Repository) (c : Contract r) (ev : MessageEvent) where
  -- `Process` fails at the lock or at the read of the state, or it goes by the state that it read.
  abbrev pub locked : S r → S r
  locked s =
      let a = r.acquire_lock (pair_of ev) s.db in record s { db = (r.get_state (pair_of ev) a.0).0 }

  pub process-cases :
      (s : S r)
      → ((x : Err) × (d : r.Db) × (process r ev s ≡ (record s { db = d }, err x)))
        ⊎ ((mu : r.Mutex) × (process r ev s
              ≡ release r mu (by_state r (c.view s.db (pair_of ev)).state ev (locked s))))
  unfolding process process_locked
  process-cases s =
      let p = pair_of ev in
      let a = r.acquire_lock p s.db in
      let g = r.get_state p a.0 in
      elim (Result-cases a.1) [
        | inr (x, e) ↦ inl (Err.sentinel Sentinel.lock_failed, a.0, ground arith)
        | inl (mu, e) ↦ elim (Result-cases g.1) [
          | inr (x, f) ↦ inl (
            Err.wrapped (codes "pipeline.process.get_state") x,
            (r.unlock mu g.0).0,
            ground arith,
          )
          | inl (o, f) ↦
              inr (mu, ground (arith, c.get_state_value p a.0 o f, c.acquire_lock_reads p s.db p))
        ]
      ]

  -- A message that `Process` takes in a stage that opens a turn replaces the turn: the context of the
  -- turn before is cancelled, the entry of the pair carries the new event and a new context, and the
  -- AI stage is launched with the joined buffer exactly if the debounce time is 0.
  pub process-Replaced :
      (s : S r)
      → opens_turn (c.view s.db (pair_of ev)).state ≡ true
      → (process r ev s).1 ≡ ok tt
      → Replaced c.view ev s (process r ev s).0
  process-Replaced s z h = elim (process-cases s) [
    | inl (x, d, e) ↦ absurd (cc e)
    | inr (mu, e) ↦
        let o = (c.view s.db (pair_of ev)).state in
        let t = (by_state r o ev (locked s)).0 in
        let k : (by_state r o ev (locked s)).1 ≡ ok tt = rw e at h in
        let b = by_state-Replaced r c ev o (locked s) z k in
        let w = record t { db = (r.unlock mu t.db).0 } in
        rw e (record {
          opened =
              Opened-between r c ev s (locked s) t w refl refl refl refl refl
                (c.unlock_reads mu t.db (pair_of ev)) b.opened;
          previous = b.previous;
        })
  ]

  -- When `Process` reports an error, no goroutine was launched, and the entry of the pair is what it
  -- was before or is gone.
  pub process-Failed :
      (s : S r) (x : Err) → (process r ev s).1 ≡ err x → Failed ev s (process r ev s).0
  process-Failed s x h = elim (process-cases s) [
    | inl (y, d, e) ↦ rw e (record { tasks = refl; entry = inl refl })
    | inr (mu, e) ↦
        let o = (c.view s.db (pair_of ev)).state in
        let f = by_state-Failed r c ev o (locked s) x (rw e at h) in
        rw e (record { tasks = f.tasks; entry = f.entry })
  ]
