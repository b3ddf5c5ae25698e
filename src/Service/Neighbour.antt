-- ===== src/Service/Neighbour.antt =====
-- `Process` on one pair and the turns of the others.
use evo_bot_runtime.Prelude.{
  ℕ, ◌<◌, ◌==◌, Bool, false, Option, none, some, ◌≡◌, ◌≢◌, refl, arith, ◌⊎◌, inl, inr, Bool-cases,
  Option-cases, Result-cases,
}
use evo_bot_runtime.Prelude.Text.{Text, text_eq, text_eq_iff}
use evo_bot_runtime.Prelude.Assoc.{lookup, lookup-erase, lookup-insert, insert}
use evo_bot_runtime.Model.{PairId, Stage, PipelineState, MessageEvent}
use evo_bot_runtime.Keys.{pair_key}
use evo_bot_runtime.Keys.RoundTrip.{IsInt64Pair}
use evo_bot_runtime.Keys.Injective.{pair_key-injective}
use evo_bot_runtime.Repository.{Repository, Contract}
use evo_bot_runtime.Service.State.{Service, Entry, pair_of, cancel_pair, mark}
use evo_bot_runtime.Service.Process.{
  S, is_zero, begin_turn, first_turn, interrupt, by_stage, by_state, process_locked, process,
}
use evo_bot_runtime.Service.Branches.{interrupt-cases, cleared}
use evo_bot_runtime.Service.Contexts.{Distinct, lookup-Distinct, lookup-differs}
use evo_bot_runtime.Service.Consistency.{
  Stored, TakenBack, start_debounce-Stored, skip_debounce-Stored, reset_debounce-Alike,
}
use evo_bot_runtime.Service.Isolation.{process-elsewhere}
use evo_bot_runtime.Service.Interleaving.{Reach, Reach-Consistent}

-- The entry of a key is found, its context is cancelled or not, and it was made.
record Kept {Db : Type 0} (k : Text) (e : Entry) (flag : Bool) (s : Service Db) : Type 0 where
  pub entry : lookup k s.entries ≡ some e
  pub cancelled : s.cancelled e.ctx ≡ flag
  pub made : e.ctx < s.fresh

-- Cancelling another context.
unmarked : (f : ℕ → Bool) (c d : ℕ) (flag : Bool) → f d ≡ flag → c ≢ d → mark f c d ≡ flag
unmarked f c d flag h ne = let z : (c == d) ≡ false = ground arith in rw z h

module _ {Db : Type 0} (j k : Text) (other : text_eq j k ≡ false) (e : Entry) (flag : Bool) where
  Stored-Kept :
      (x : Entry) (s t : Service Db)
      → Stored j x s t ⊎ TakenBack j x s t
      → Kept k e flag s
      → Kept k e flag t
  Stored-Kept x s t (inl a) h = record {
    entry = rw (a.entries, lookup-insert j k x s.entries, other) h.entry;
    cancelled = rw a.cancelled h.cancelled;
    made = rw a.fresh (omega (arith, h.made));
  }
  Stored-Kept x s t (inr a) h = record {
    entry =
        rw
          (a.entries, lookup-erase j k (insert j x s.entries), lookup-insert j k x s.entries, other)
          h.entry;
    cancelled =
        rw a.cancelled
          (unmarked s.cancelled s.fresh e.ctx flag h.cancelled (λ z. omega (arith, h.made, z)));
    made = rw a.fresh (omega (arith, h.made));
  }

  cancel_pair-Kept :
      (p : PairId) (s : Service Db)
      → pair_key p ≡ j
      → Distinct s.fresh s.entries
      → Kept k e flag s
      → Kept k e flag (cancel_pair p s)
  unfolding cancel_pair
  cancel_pair-Kept p s key d h = elim (Option-cases (lookup j s.entries)) [
    | inl gone ↦ rw (key, gone) h
    | inr (x, found) ↦
        let ne = lookup-differs j k s.fresh s.entries x e d other found h.entry in
        rw (key, found)
          (record {
            entry = rw (key, lookup-erase j k s.entries, other) h.entry;
            cancelled = unmarked s.cancelled x.ctx e.ctx flag h.cancelled ne;
            made = h.made;
          })
  ]

module _ (r : Repository) (ev : MessageEvent) (k : Text)
    (other : text_eq (pair_key (pair_of ev)) k ≡ false) (e : Entry) (flag : Bool) where
  begin_turn-Kept : (s : S r) → Kept k e flag s → Kept k e flag (begin_turn r ev s).0
  unfolding begin_turn
  begin_turn-Kept s h = elim (Bool-cases (is_zero ev.bot_config.debounce_time)) [
    | inl z ↦ rw z (Stored-Kept _ k other e flag _ s _ (skip_debounce-Stored r ev s) h)
    | inr z ↦ rw z (Stored-Kept _ k other e flag _ s _ (start_debounce-Stored r ev s) h)
  ]

  cancelled-Kept :
      (s : S r)
      → Distinct s.fresh s.entries
      → Kept k e flag s
      → Kept k e flag (cancel_pair (pair_of ev) s)
  cancelled-Kept s d h = cancel_pair-Kept _ k other e flag (pair_of ev) s refl d h

  first_turn-Kept :
      (s : S r) → Distinct s.fresh s.entries → Kept k e flag s → Kept k e flag (first_turn r ev s).0
  unfolding first_turn
  first_turn-Kept s d h = begin_turn-Kept (cancel_pair (pair_of ev) s) (cancelled-Kept s d h)

  interrupt-Kept :
      (s : S r) → Distinct s.fresh s.entries → Kept k e flag s → Kept k e flag (interrupt r ev s).0
  interrupt-Kept s d h =
      let t = cancelled-Kept s d h in
      let u : Kept k e flag (cleared r ev s) = record {
        entry = t.entry;
        cancelled = t.cancelled;
        made = t.made;
      } in
      elim (interrupt-cases r ev s) [
        | inl (x, same) ↦ rw same u
        | inr same ↦ rw same (begin_turn-Kept (cleared r ev s) u)
      ]

  by_stage-Kept :
      (g : Stage) (s : S r)
      → Distinct s.fresh s.entries
      → Kept k e flag s
      → Kept k e flag (by_stage r g ev s).0
  by_stage-Kept Stage.incoming s d h = first_turn-Kept s d h
  by_stage-Kept Stage.debounce s d h =
      let a = reset_debounce-Alike r ev s in
      record {
        entry = rw a.entries h.entry;
        cancelled = rw a.cancelled h.cancelled;
        made = rw a.fresh h.made;
      }
  by_stage-Kept Stage.ai s d h = interrupt-Kept s d h
  by_stage-Kept Stage.dispatch s d h = interrupt-Kept s d h
  by_stage-Kept Stage.done s d h = h
  by_stage-Kept (Stage.other name) s d h = h

  by_state-Kept :
      (o : Option PipelineState) (s : S r)
      → Distinct s.fresh s.entries
      → Kept k e flag s
      → Kept k e flag (by_state r o ev s).0
  by_state-Kept none s d h = first_turn-Kept s d h
  by_state-Kept (some st) s d h = by_stage-Kept st.stage s d h

  -- `Kept` says nothing of the store.
  Kept-db : (s : S r) (db : r.Db) → Kept k e flag s → Kept k e flag (record s { db = db })
  Kept-db s db h = record { entry = h.entry; cancelled = h.cancelled; made = h.made }

  process_locked-Kept :
      (s : S r)
      → Distinct s.fresh s.entries
      → Kept k e flag s
      → Kept k e flag (process_locked r ev s).0
  unfolding process_locked
  process_locked-Kept s d h =
      let g = r.get_state (pair_of ev) s.db in
      let t = Kept-db s g.0 h in
      elim (Result-cases g.1) [
        | inl (o, z) ↦ rw (z, process_locked) (by_state-Kept o (record s { db = g.0 }) d t)
        | inr (x, z) ↦ rw (z, process_locked) t
      ]

  process-Kept :
      (s : S r) → Distinct s.fresh s.entries → Kept k e flag s → Kept k e flag (process r ev s).0
  unfolding process
  process-Kept s d h =
      let a = r.acquire_lock (pair_of ev) s.db in
      let t = Kept-db s a.0 h in
      elim (Result-cases a.1) [
        | inl (mu, z) ↦
            let u = process_locked-Kept (record s { db = a.0 }) d t in
            rw (z, process) (record { entry = u.entry; cancelled = u.cancelled; made = u.made })
        | inr (x, z) ↦ rw (z, process) t
      ]

-- In every state that the service can come to, `Process` for a message of one pair leaves the turn of
-- every other pair alone, also when it fails halfway: its state, text buffer and media, its entry, and
-- whether its context is cancelled.
pub process-neighbour :
    (r : Repository) (c : Contract r) (ev : MessageEvent) (q : PairId) (e : Entry) (s : S r)
    → Reach r s
    → IsInt64Pair (pair_of ev)
    → IsInt64Pair q
    → pair_of ev ≢ q
    → lookup (pair_key q) s.entries ≡ some e
    → let t = (process r ev s).0 in
      (c.view t.db q ≡ c.view s.db q)
      × (lookup (pair_key q) t.entries ≡ some e)
      × (t.cancelled e.ctx ≡ s.cancelled e.ctx)
process-neighbour r c ev q e s reached hp hq ne found =
    let i = Reach-Consistent r c reached in
    let made = lookup-Distinct (pair_key q) s.fresh s.entries e i.distinct found in
    elim (Bool-cases (text_eq (pair_key (pair_of ev)) (pair_key q))) [
      | inl same ↦ absurd (
          ne (
            pair_key-injective (pair_of ev) q hp hq
              ((text_eq_iff (pair_key (pair_of ev)) (pair_key q)).0 same)))
      | inr other ↦
          let h =
            process-Kept r ev (pair_key q) other e (s.cancelled e.ctx) s i.distinct
              (record { entry = found; cancelled = refl; made = made }) in
          (process-elsewhere r c ev q hp hq ne s, h.entry, h.cancelled)
    ]
