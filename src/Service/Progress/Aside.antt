-- ===== src/Service/Progress/Aside.antt =====
-- What a tick of the poller does for one pair, seen from another.
use evo_bot_runtime.Prelude.{
  Bool, true, false, List, [], ◌∷◌, Option, Result, ok, err, ◌≡◌, ◌≢◌, refl, sym, ◌∙◌, arith, inl,
  inr, Bool-cases, Result-cases, append-nil,
}
use evo_bot_runtime.Prelude.Text.{Text}
use evo_bot_runtime.Errors.{Err}
use evo_bot_runtime.Model.{PairId, Stage, PipelineState}
use evo_bot_runtime.Keys.{pair_key, parse_pair_key}
use evo_bot_runtime.Keys.RoundTrip.{IsInt64Pair, parse_pair_key-pair_key}
use evo_bot_runtime.Repository.{Repository, Cell, Contract}
use evo_bot_runtime.Debounce
use evo_bot_runtime.Debounce.Laws.{get_buffer-view}
use evo_bot_runtime.Service.State.{Service, Entry}
use evo_bot_runtime.Service.Process.{
  S, in_debounce, bare_state, launch_ai_stage, advance_locked, advance_outcome, advance_to_ai,
}
use evo_bot_runtime.Service.Recovery.{
  is_zero_id, advance_if_expired, poll_timer, poll_entry, poll_entries,
}
use evo_bot_runtime.Service.Once.{advance-Advanced}
use evo_bot_runtime.Service.Consistency.{advance-Alike}
use evo_bot_runtime.Service.Progress.Growth.{Grows, Grows-refl, Grows-trans}

-- What a step for another pair leaves of the pair `p`.
pub record Aside {Db : Type 0} (view : Db → PairId → Cell) (p : PairId) (s t : Service Db)
    : Type 0 where
  pub entries : t.entries ≡ s.entries
  pub cancelled : t.cancelled ≡ s.cancelled
  pub cell : view t.db p ≡ view s.db p
  pub tasks : Grows s t

module _ (r : Repository) (c : Contract r) where
  pub advance-Grows : (q : PairId) (s : S r) → Grows s (advance_to_ai r q s)
  advance-Grows q s = elim (advance-Advanced r c q s) [
    | inl same ↦ ([], same ∙ sym (append-nil s.ai_tasks))
    | inr adv ↦ let (e, atts, found, task) = adv.task in (_, task)
  ]

  pub advance_if_expired-Grows :
      (q : PairId) (o : Result Err Bool) (s : S r) → Grows s (advance_if_expired r q o s)
  advance_if_expired-Grows q (ok false) s = advance-Grows q s
  advance_if_expired-Grows q (ok true) s = Grows-refl s
  advance_if_expired-Grows q (err e) s = Grows-refl s

  poll_timer-Grows :
      (q : PairId) (o : Result Err (Option PipelineState)) (s : S r) → Grows s (poll_timer r q o s)
  poll_timer-Grows q (err e) s = Grows-refl s
  poll_timer-Grows q (ok o) s =
      let call = r.timer_exists q s.db in
      elim (Bool-cases (in_debounce o)) [
        | inl z ↦ rw z (advance_if_expired-Grows q call.1 (record s { db = call.0 }))
        | inr z ↦ rw z (Grows-refl s)
      ]

  poll_entry-Grows : (k : Text) (e : Entry) (s : S r) → Grows s (poll_entry r k e s)
  unfolding poll_entry
  poll_entry-Grows k e s =
      let q = parse_pair_key k in
      let call = r.get_state q s.db in
      elim (Bool-cases (s.cancelled e.ctx)) [
        | inl z ↦ rw z (Grows-refl s)
        | inr z ↦ elim (Bool-cases (is_zero_id q.contact_id)) [
          | inl y ↦ rw (z, y) (Grows-refl s)
          | inr y ↦ rw (z, y) (poll_timer-Grows q call.1 (record s { db = call.0 }))
        ]
      ]

  pub poll_entries-Grows : (m : List (Text × Entry)) (s : S r) → Grows s (poll_entries r m s)
  unfolding poll_entries
  poll_entries-Grows [] s = Grows-refl s
  poll_entries-Grows ((k, e) ∷ m) s =
      Grows-trans s (poll_entry r k e s) (poll_entries r m (poll_entry r k e s))
        (poll_entry-Grows k e s) (poll_entries-Grows m (poll_entry r k e s))

  module _ (p q : PairId) (hp : IsInt64Pair p) (hq : IsInt64Pair q) (ne : q ≢ p) where
    advance_locked-elsewhere : (s : S r) → c.view (advance_locked r q s).0.db p ≡ c.view s.db p
    unfolding advance_locked launch_ai_stage Debounce.get_attachments
    advance_locked-elsewhere s =
        let g = r.get_state q s.db in
        let x = r.timer_exists q g.0 in
        let b = Debounce.get_buffer r q x.0 in
        let a = r.get_attachments q b.0 in
        ground (
          arith,
          c.get_state_reads q s.db p,
          c.timer_exists_reads q g.0 p,
          get_buffer-view r c q p x.0,
          c.get_attachments_reads q b.0 p,
          (c.set_state_writes q (bare_state Stage.ai s.now)).elsewhere a.0 p hq hp ne,
        )

    pub advance-elsewhere : (s : S r) → c.view (advance_to_ai r q s).db p ≡ c.view s.db p
    unfolding advance_to_ai advance_outcome
    advance-elsewhere s =
        let a = r.acquire_lock q s.db in
        let u = record s { db = a.0 } in
        let same = c.acquire_lock_reads q s.db p in
        elim (Result-cases a.1) [
          | inl (mu, e) ↦ ground (
            arith,
            same,
            advance_locked-elsewhere u,
            c.unlock_reads mu (advance_locked r q u).0.db p,
          )
          | inr (x, e) ↦ ground (arith, same)
        ]

    Aside-db :
        (s : S r) (db : r.Db)
        → c.view db p ≡ c.view s.db p
        → Aside c.view p s (record s { db = db })
    Aside-db s db same = record {
      entries = refl;
      cancelled = refl;
      cell = same;
      tasks = ([], sym (append-nil s.ai_tasks));
    }

    Aside-trans : (s t u : S r) → Aside c.view p s t → Aside c.view p t u → Aside c.view p s u
    Aside-trans s t u a b = record {
      entries = b.entries ∙ a.entries;
      cancelled = b.cancelled ∙ a.cancelled;
      cell = b.cell ∙ a.cell;
      tasks = Grows-trans s t u a.tasks b.tasks;
    }

    advance-Aside : (s : S r) → Aside c.view p s (advance_to_ai r q s)
    advance-Aside s =
        let alike = advance-Alike r q s in
        record {
          entries = alike.entries;
          cancelled = alike.cancelled;
          cell = advance-elsewhere s;
          tasks = advance-Grows q s;
        }

    advance_if_expired-Aside :
        (o : Result Err Bool) (s : S r) → Aside c.view p s (advance_if_expired r q o s)
    advance_if_expired-Aside (ok false) s = advance-Aside s
    advance_if_expired-Aside (ok true) s = Aside-db s s.db refl
    advance_if_expired-Aside (err e) s = Aside-db s s.db refl

    poll_timer-Aside :
        (o : Result Err (Option PipelineState)) (s : S r) → Aside c.view p s (poll_timer r q o s)
    poll_timer-Aside (err e) s = Aside-db s s.db refl
    poll_timer-Aside (ok o) s =
        let call = r.timer_exists q s.db in
        let t = record s { db = call.0 } in
        elim (Bool-cases (in_debounce o)) [
          | inl z ↦ rw z (
              Aside-trans s t (advance_if_expired r q call.1 t)
                (Aside-db s call.0 (c.timer_exists_reads q s.db p))
                (advance_if_expired-Aside call.1 t))
          | inr z ↦ rw z (Aside-db s s.db refl)
        ]

    pub poll_entry-Aside : (e : Entry) (s : S r) → Aside c.view p s (poll_entry r (pair_key q) e s)
    unfolding poll_entry
    poll_entry-Aside e s =
        let call = r.get_state q s.db in
        let t = record s { db = call.0 } in
        let key = parse_pair_key-pair_key q hq in
        elim (Bool-cases (s.cancelled e.ctx)) [
          | inl z ↦ rw z (Aside-db s s.db refl)
          | inr z ↦ elim (Bool-cases (is_zero_id q.contact_id)) [
            | inl y ↦ rw (z, key, y) (Aside-db s s.db refl)
            | inr y ↦
                rw (z, key, y)
                  (Aside-trans s t (poll_timer r q call.1 t)
                    (Aside-db s call.0 (c.get_state_reads q s.db p)) (poll_timer-Aside call.1 t))
          ]
        ]
