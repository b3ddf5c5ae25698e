-- ===== src/Service/Interleaving.antt =====
-- Every interleaving of the service's steps, at the grain of one handler call, and what holds of the
-- entries and contexts throughout.
use evo_bot_runtime.Prelude.{
  ℕ, ◌≤◌, Bool, true, false, List, [], ◌∷◌, ◌++◌, Option, none, some, Result, ok, err, ◌≡◌, refl,
  arith, inl, inr, Bool-cases, Result-cases, All,
}
use evo_bot_runtime.Prelude.Text.{Text}
use evo_bot_runtime.Prelude.Assoc.{lookup}
use evo_bot_runtime.Errors.{Err}
use evo_bot_runtime.Model.{PairId, PipelineState, MessageEvent}
use evo_bot_runtime.Keys.{pair_key, parse_pair_key}
use evo_bot_runtime.Keys.RoundTrip.{IsInt64Pair}
use evo_bot_runtime.Repository.{Repository, Contract}
use evo_bot_runtime.Service.State.{pair_of, Entry, AiTask, DispatchTask, store_entry, cancel_ctx}
use evo_bot_runtime.Service.Process.{S, in_debounce, process, cancel}
use evo_bot_runtime.Service.Stages.{Outcome, finish_ai, finish_dispatch}
use evo_bot_runtime.Service.Recovery.{
  start, poll, shutdown, recover_all, recover_pair, poll_entries, poll_entry, cancel_all,
  entry_of_state, max_recovery_pairs, is_zero_id, store_missing, advance_if_expired, recover_found,
  poll_timer,
}
use evo_bot_runtime.Service.Contexts.{Distinct, store-Inv}
use evo_bot_runtime.Service.Consistency.{
  Consistent, Ended-Consistent, cancel_pair-Consistent, process-Consistent, advance-Consistent,
  finish_ai-Ended, finish_dispatch-Ended,
}

module _ (r : Repository) where
  store_missing-Consistent :
      (p : PairId) (st : PipelineState) (o : Option Entry) (s : S r)
      → IsInt64Pair p
      → Consistent s
      → Consistent (store_missing r p st o s)
  unfolding store_entry
  store_missing-Consistent p st (some e) s int i = i
  store_missing-Consistent p st none s int i =
      store-Inv (pair_key p) (entry_of_state s.fresh st) _ _ _ _ refl (p, int, refl) i

  advance_if_expired-Consistent :
      (p : PairId) (o : Result Err Bool) (s : S r)
      → Consistent s
      → Consistent (advance_if_expired r p o s)
  advance_if_expired-Consistent p (ok false) s i = advance-Consistent r p s i
  advance_if_expired-Consistent p (ok true) s i = i
  advance_if_expired-Consistent p (err e) s i = i

  recover_found-Consistent :
      (p : PairId) (o : Result Err (Option PipelineState)) (s : S r)
      → IsInt64Pair p
      → Consistent s
      → Consistent (recover_found r p o s)
  recover_found-Consistent p (err e) s int i = i
  recover_found-Consistent p (ok none) s int i = i
  recover_found-Consistent p (ok (some st)) s int i =
      let t = store_missing r p st (lookup (pair_key p) s.entries) s in
      let call = r.timer_exists p t.db in
      elim (Bool-cases (in_debounce (some st))) [
        | inl z ↦ rw z (
            advance_if_expired-Consistent p call.1 (record t { db = call.0 })
              (store_missing-Consistent p st (lookup (pair_key p) s.entries) s int i))
        | inr z ↦ rw z i
      ]

  recover_all-Consistent :
      (ps : List PairId) (s : S r)
      → All IsInt64Pair ps
      → Consistent s
      → Consistent (recover_all r ps s)
  unfolding recover_all
  recover_all-Consistent [] s ints i = i
  recover_all-Consistent (p ∷ ps) s (int, ints) i =
      let g = r.get_state p s.db in
      recover_all-Consistent ps (recover_pair r p s) ints
        (recover_found-Consistent p g.1 (record s { db = g.0 }) int i)

  start-Consistent : Contract r → (s : S r) → Consistent s → Consistent (start r s).0
  unfolding start
  start-Consistent c s i =
      let call = r.scan_states max_recovery_pairs s.db in
      elim (Result-cases call.1) [
        | inl (ps, e) ↦
            rw (e, start)
              (recover_all-Consistent ps (record s { db = call.0 })
                (c.scan_states_pairs max_recovery_pairs s.db ps e) i)
        | inr (x, e) ↦ rw (e, start) i
      ]

  poll_timer-Consistent :
      (p : PairId) (o : Result Err (Option PipelineState)) (s : S r)
      → Consistent s
      → Consistent (poll_timer r p o s)
  poll_timer-Consistent p (err e) s i = i
  poll_timer-Consistent p (ok o) s i =
      let call = r.timer_exists p s.db in
      elim (Bool-cases (in_debounce o)) [
        | inl z ↦ rw z (advance_if_expired-Consistent p call.1 (record s { db = call.0 }) i)
        | inr z ↦ rw z i
      ]

  poll_entry-Consistent :
      (k : Text) (e : Entry) (s : S r) → Consistent s → Consistent (poll_entry r k e s)
  unfolding poll_entry
  poll_entry-Consistent k e s i =
      let p = parse_pair_key k in
      let call = r.get_state p s.db in
      elim (Bool-cases (s.cancelled e.ctx)) [
        | inl z ↦ rw z i
        | inr z ↦ elim (Bool-cases (is_zero_id p.contact_id)) [
          | inl y ↦ rw (z, y) i
          | inr y ↦ rw (z, y) (poll_timer-Consistent p call.1 (record s { db = call.0 }) i)
        ]
      ]

  poll_entries-Consistent :
      (m : List (Text × Entry)) (s : S r) → Consistent s → Consistent (poll_entries r m s)
  unfolding poll_entries
  poll_entries-Consistent [] s i = i
  poll_entries-Consistent ((k, e) ∷ m) s i =
      poll_entries-Consistent m (poll_entry r k e s) (poll_entry-Consistent k e s i)

  poll-Consistent : (s : S r) → Consistent s → Consistent (poll r s)
  unfolding poll
  poll-Consistent s i = poll_entries-Consistent s.entries s i

  -- Shutdown cancels contexts that were made, and promises no live entry any more.
  cancel_all-unmade :
      (n : ℕ) (m : List (Text × Entry)) (s : S r)
      → Distinct n m
      → ((d : ℕ) → n ≤ d → s.cancelled d ≡ false)
      → (d : ℕ) → n ≤ d
      → (cancel_all r m s).cancelled d ≡ false
  unfolding cancel_all
  cancel_all-unmade n [] s h u = u
  cancel_all-unmade n ((k, e) ∷ m) s (l, o, h) u =
      cancel_all-unmade n m (cancel_ctx e.ctx s) h (λ d g. ground (arith, u d g))

  cancel_all-rest :
      (m : List (Text × Entry)) (s : S r)
      → ((cancel_all r m s).entries ≡ s.entries) × ((cancel_all r m s).fresh ≡ s.fresh)
  unfolding cancel_all
  cancel_all-rest [] s = (refl, refl)
  cancel_all-rest ((k, e) ∷ m) s = cancel_all-rest m (cancel_ctx e.ctx s)

  shutdown-Consistent : (s : S r) → Consistent s → Consistent (shutdown r s)
  unfolding shutdown
  shutdown-Consistent s i =
      let same = cancel_all-rest s.entries s in
      let unmade = cancel_all-unmade s.fresh s.entries s i.distinct i.unmade in
      record {
        distinct = rw (same.0, same.1) i.distinct;
        live = λ z. absurd (cc z);
        unmade = rw same.1 unmade;
        keyed = rw same.0 i.keyed;
      }

  -- One step of the service, in any order with the others: a goroutine with a handler call, the poller,
  -- a goroutine of a stage that was launched and now ends with any outcome, or a change of the world
  -- (the clock, the expiry of keys, another instance on the same store). The ids of an event are int64.
  pub data Step : S r → S r → Type 0 where
    process_event :
        (ev : MessageEvent) (s : S r) → IsInt64Pair (pair_of ev) → Step s (process r ev s).0
    cancel_turn : (p : PairId) (s : S r) → Step s (cancel r p s)
    poll_tick : (s : S r) → Step s (poll r s)
    end_ai :
        (env : Option Text) (t : AiTask) (before behind : List AiTask) (out : Outcome Text)
        (sent : Outcome (Unit {0})) (s : S r)
        → s.ai_tasks ≡ before ++ (t ∷ behind)
        → Step s (finish_ai r env t out sent (record s { ai_tasks = before ++ behind }))
    end_dispatch :
        (t : DispatchTask) (before behind : List DispatchTask) (out : Outcome (Unit {0})) (s : S r)
        → s.dispatch_tasks ≡ before ++ (t ∷ behind)
        → Step s (finish_dispatch r t out (record s { dispatch_tasks = before ++ behind }))
    world : (db : r.Db) (now : ℕ) (s : S r) → Step s (record s { db = db; now = now })
    shut_down : (s : S r) → Step s (shutdown r s)

  abbrev pub new_service : r.Db → ℕ → S r
  new_service db now = record {
    db = db;
    entries = [];
    cancelled = λ d. false;
    fresh = 0;
    now = now;
    ai_tasks = [];
    dispatch_tasks = [];
    notices = [];
    stopped = false;
  }

  -- The states that a service can come to after `Start`, whose error ends the program.
  pub data Reach : S r → Type 0 where
    started : (db : r.Db) (now : ℕ) → Reach (start r (new_service db now)).0
    next : {s t : S r} → Reach s → Step s t → Reach t

  cancel-Consistent : (p : PairId) (s : S r) → Consistent s → Consistent (cancel r p s)
  unfolding cancel
  cancel-Consistent p s i = cancel_pair-Consistent p s i

  Step-Consistent : {s t : S r} → Step s t → Consistent s → Consistent t
  Step-Consistent (process_event ev s int) i = process-Consistent r ev s int i
  Step-Consistent (cancel_turn p s) i = cancel-Consistent p s i
  Step-Consistent (poll_tick s) i = poll-Consistent s i
  Step-Consistent (end_ai env t before behind out sent s h) i =
      Ended-Consistent (pair_key t.pair) (record s { ai_tasks = before ++ behind })
        (finish_ai r env t out sent (record s { ai_tasks = before ++ behind }))
        (finish_ai-Ended r env t out sent (record s { ai_tasks = before ++ behind })) i
  Step-Consistent (end_dispatch t before behind out s h) i =
      Ended-Consistent (pair_key t.pair) (record s { dispatch_tasks = before ++ behind })
        (finish_dispatch r t out (record s { dispatch_tasks = before ++ behind }))
        (finish_dispatch-Ended r t out (record s { dispatch_tasks = before ++ behind })) i
  Step-Consistent (world db now s) i = i
  Step-Consistent (shut_down s) i = shutdown-Consistent s i

  -- In every state that the service can come to, by its steps in any order and with any outcomes of
  -- its calls: each entry stands under the key of a pair of int64 ids and has a context that was made
  -- and that no other entry has; no entry has a cancelled context before Shutdown; and no context is
  -- cancelled before it is made.
  pub Reach-Consistent : Contract r → {s : S r} → Reach s → Consistent s
  Reach-Consistent c (started db now) =
      start-Consistent c (new_service db now)
        (record { distinct = tt; live = λ z. tt; unmade = λ d h. refl; keyed = tt })
  Reach-Consistent c (next h step) = Step-Consistent step (Reach-Consistent c h)
