-- ===== src/Service/Consistency.antt =====
-- `Process`, `advanceToAI` and the ends of the goroutines, as far as the contexts go.
use evo_bot_runtime.Prelude.{
  suc, Option, none, some, ok, err, ◌≡◌, refl, arith, ◌⊎◌, inl, inr, Bool-cases, Option-cases,
  Result-cases,
}
use evo_bot_runtime.Prelude.Text.{Text}
use evo_bot_runtime.Prelude.Assoc.{lookup, insert, erase}
use evo_bot_runtime.Model.{PairId, Stage, PipelineState, MessageEvent}
use evo_bot_runtime.Keys.{pair_key}
use evo_bot_runtime.Repository.{Repository}
use evo_bot_runtime.Keys.RoundTrip.{IsInt64Pair}
use evo_bot_runtime.Service.State.{
  Service, Entry, AiTask, DispatchTask, pair_of, cancel_pair, new_entry, mark,
}
use evo_bot_runtime.Service.Process.{
  S, is_zero, start_debounce, skip_debounce, reset_debounce, begin_turn, first_turn, interrupt,
  by_stage, by_state, process_locked, process, launch_ai_stage, advance_locked, advance_to_ai,
}
use evo_bot_runtime.Service.Stages.{Outcome, returns, panics, finish_ai, finish_dispatch}
use evo_bot_runtime.Service.Branches.{interrupt-cases, cleared}
use evo_bot_runtime.Service.Contexts.{
  IsPairKey, Inv, store-Inv, erase-Inv, cancel-Inv, lookup-Distinct, erase_found-OwnContext,
  erase-insert-OwnContext, Distinct-OwnContext,
}

abbrev pub Consistent : {Db : Type 0} → Service Db → Type 0
Consistent s = Inv s.entries s.cancelled s.fresh s.stopped

-- Two services with the same contexts.
pub record Alike {Db : Type 0} (s t : Service Db) : Type 0 where
  pub entries : t.entries ≡ s.entries
  pub cancelled : t.cancelled ≡ s.cancelled
  pub fresh : t.fresh ≡ s.fresh
  pub stopped : t.stopped ≡ s.stopped

pub Alike-Consistent : {Db : Type 0} (s t : Service Db) → Alike s t → Consistent s → Consistent t
Alike-Consistent s t a i = rw (a.entries, a.cancelled, a.fresh, a.stopped) i

-- The entry of a key is gone, or nothing changed.
abbrev pub Ended : {Db : Type 0} → Text → Service Db → Service Db → Type 0
Ended k s t =
    ((t.entries ≡ s.entries) ⊎ (t.entries ≡ erase k s.entries))
    × (t.cancelled ≡ s.cancelled)
    × (t.fresh ≡ s.fresh)
    × (t.stopped ≡ s.stopped)

pub Ended-Consistent :
    {Db : Type 0} (k : Text) (s t : Service Db) → Ended k s t → Consistent s → Consistent t
Ended-Consistent k s t (inl same, c, f, b) i = rw (same, c, f, b) i
Ended-Consistent k s t (inr gone, c, f, b) i = rw (gone, c, f, b) (erase-Inv k _ _ _ _ i)

-- A new entry stands in the map, or it was taken back.
pub record Stored {Db : Type 0} (k : Text) (e : Entry) (s t : Service Db) : Type 0 where
  pub entries : t.entries ≡ insert k e s.entries
  pub cancelled : t.cancelled ≡ s.cancelled
  pub fresh : t.fresh ≡ suc s.fresh
  pub stopped : t.stopped ≡ s.stopped

pub record TakenBack {Db : Type 0} (k : Text) (e : Entry) (s t : Service Db) : Type 0 where
  pub entries : t.entries ≡ erase k (insert k e s.entries)
  pub cancelled : t.cancelled ≡ mark s.cancelled s.fresh
  pub fresh : t.fresh ≡ suc s.fresh
  pub stopped : t.stopped ≡ s.stopped

Stored-Consistent :
    {Db : Type 0} (k : Text) (e : Entry) (s t : Service Db)
    → e.ctx ≡ s.fresh
    → IsPairKey k
    → Stored k e s t ⊎ TakenBack k e s t
    → Consistent s
    → Consistent t
Stored-Consistent k e s t q own (inl a) i =
    rw (a.entries, a.cancelled, a.fresh, a.stopped) (store-Inv k e _ _ _ _ q own i)
Stored-Consistent k e s t q own (inr a) i =
    rw (a.entries, a.cancelled, a.fresh, a.stopped)
      (cancel-Inv _ _ _ _ _
        (erase-insert-OwnContext k e s.fresh s.entries
          (Distinct-OwnContext s.fresh s.entries i.distinct))
        (omega arith) (erase-Inv k _ _ _ _ (store-Inv k e _ _ _ _ q own i)))

pub cancel_pair-Consistent :
    {Db : Type 0} (p : PairId) (s : Service Db) → Consistent s → Consistent (cancel_pair p s)
unfolding cancel_pair
cancel_pair-Consistent p s i = elim (Option-cases (lookup (pair_key p) s.entries)) [
  | inl gone ↦ rw gone i
  | inr (e, found) ↦ rw found (
      cancel-Inv _ _ _ _ _
        (erase_found-OwnContext (pair_key p) s.fresh s.entries e i.distinct found)
        (lookup-Distinct (pair_key p) s.fresh s.entries e i.distinct found)
        (erase-Inv (pair_key p) _ _ _ _ i))
]

module _ (r : Repository) where
  pub start_debounce-Stored :
      (ev : MessageEvent) (s : S r)
      → Stored (pair_key (pair_of ev)) (new_entry s.fresh ev) s (start_debounce r ev s).0
        ⊎ TakenBack (pair_key (pair_of ev)) (new_entry s.fresh ev) s (start_debounce r ev s).0
  unfolding start_debounce
  start_debounce-Stored ev s = ground arith

  pub skip_debounce-Stored :
      (ev : MessageEvent) (s : S r)
      → Stored (pair_key (pair_of ev)) (new_entry s.fresh ev) s (skip_debounce r ev s).0
        ⊎ TakenBack (pair_key (pair_of ev)) (new_entry s.fresh ev) s (skip_debounce r ev s).0
  unfolding skip_debounce launch_ai_stage
  skip_debounce-Stored ev s = ground arith

  begin_turn-Consistent :
      (ev : MessageEvent) (s : S r)
      → IsInt64Pair (pair_of ev)
      → Consistent s
      → Consistent (begin_turn r ev s).0
  unfolding begin_turn
  begin_turn-Consistent ev s int i = elim (Bool-cases (is_zero ev.bot_config.debounce_time)) [
    | inl z ↦
        rw z (Stored-Consistent _ _ s _ refl (pair_of ev, int, refl) (skip_debounce-Stored ev s) i)
    | inr z ↦
        rw z (Stored-Consistent _ _ s _ refl (pair_of ev, int, refl) (start_debounce-Stored ev s) i)
  ]

  first_turn-Consistent :
      (ev : MessageEvent) (s : S r)
      → IsInt64Pair (pair_of ev)
      → Consistent s
      → Consistent (first_turn r ev s).0
  unfolding first_turn
  first_turn-Consistent ev s int i =
      begin_turn-Consistent ev (cancel_pair (pair_of ev) s) int
        (cancel_pair-Consistent (pair_of ev) s i)

  interrupt-Consistent :
      (ev : MessageEvent) (s : S r)
      → IsInt64Pair (pair_of ev)
      → Consistent s
      → Consistent (interrupt r ev s).0
  interrupt-Consistent ev s int i =
      let t = cancel_pair-Consistent (pair_of ev) s i in
      elim (interrupt-cases r ev s) [
        | inl (x, e) ↦ rw e t
        | inr e ↦ rw e (begin_turn-Consistent ev (cleared r ev s) int t)
      ]

  pub reset_debounce-Alike : (ev : MessageEvent) (s : S r) → Alike s (reset_debounce r ev s).0
  unfolding reset_debounce
  reset_debounce-Alike ev s = ground arith

  by_stage-Consistent :
      (g : Stage) (ev : MessageEvent) (s : S r)
      → IsInt64Pair (pair_of ev)
      → Consistent s
      → Consistent (by_stage r g ev s).0
  by_stage-Consistent Stage.incoming ev s int i = first_turn-Consistent ev s int i
  by_stage-Consistent Stage.debounce ev s int i = Alike-Consistent s _ (reset_debounce-Alike ev s) i
  by_stage-Consistent Stage.ai ev s int i = interrupt-Consistent ev s int i
  by_stage-Consistent Stage.dispatch ev s int i = interrupt-Consistent ev s int i
  by_stage-Consistent Stage.done ev s int i = i
  by_stage-Consistent (Stage.other name) ev s int i = i

  by_state-Consistent :
      (o : Option PipelineState) (ev : MessageEvent) (s : S r)
      → IsInt64Pair (pair_of ev)
      → Consistent s
      → Consistent (by_state r o ev s).0
  by_state-Consistent none ev s int i = first_turn-Consistent ev s int i
  by_state-Consistent (some st) ev s int i = by_stage-Consistent st.stage ev s int i

  process_locked-Consistent :
      (ev : MessageEvent) (s : S r)
      → IsInt64Pair (pair_of ev)
      → Consistent s
      → Consistent (process_locked r ev s).0
  unfolding process_locked
  process_locked-Consistent ev s int i =
      let g = r.get_state (pair_of ev) s.db in
      elim (Result-cases g.1) [
        | inl (o, e) ↦
            rw (e, process_locked) (by_state-Consistent o ev (record s { db = g.0 }) int i)
        | inr (x, e) ↦ rw (e, process_locked) i
      ]

  pub process-Consistent :
      (ev : MessageEvent) (s : S r)
      → IsInt64Pair (pair_of ev)
      → Consistent s
      → Consistent (process r ev s).0
  unfolding process
  process-Consistent ev s int i =
      let a = r.acquire_lock (pair_of ev) s.db in
      elim (Result-cases a.1) [
        | inl (mu, e) ↦ rw (e, process) (process_locked-Consistent ev (record s { db = a.0 }) int i)
        | inr (x, e) ↦ rw (e, process) i
      ]

  advance_locked-Alike : (p : PairId) (s : S r) → Alike s (advance_locked r p s).0
  unfolding advance_locked launch_ai_stage
  advance_locked-Alike p s = ground arith

  pub advance-Alike : (p : PairId) (s : S r) → Alike s (advance_to_ai r p s)
  unfolding advance_to_ai
  advance-Alike p s =
      let a = r.acquire_lock p s.db in
      ground (arith, advance_locked-Alike p (record s { db = a.0 }))

  pub advance-Consistent : (p : PairId) (s : S r) → Consistent s → Consistent (advance_to_ai r p s)
  advance-Consistent p s i = Alike-Consistent s _ (advance-Alike p s) i

  -- The end of a goroutine deletes at most the entry of its pair.
  pub finish_ai-Ended :
      (env : Option Text) (t : AiTask) (out : Outcome Text) (sent : Outcome (Unit {0})) (s : S r)
      → Ended (pair_key t.pair) s (finish_ai r env t out sent s)
  unfolding finish_ai
  finish_ai-Ended env t panics sent s = ground arith
  finish_ai-Ended env t (returns (ok content)) sent s = ground arith
  finish_ai-Ended env t (returns (err e)) sent s = ground arith

  pub finish_dispatch-Ended :
      (t : DispatchTask) (out : Outcome (Unit {0})) (s : S r)
      → Ended (pair_key t.pair) s (finish_dispatch r t out s)
  unfolding finish_dispatch
  finish_dispatch-Ended t panics s = ground arith
  finish_dispatch-Ended t (returns (ok done)) s = ground arith
  finish_dispatch-Ended t (returns (err e)) s = ground arith
