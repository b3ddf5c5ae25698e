-- ===== src/Service/Progress/Idle.antt =====
-- The idle states of a pair, throughout what the poller and recovery do for another.
use evo_bot_runtime.Prelude.{
  Bool, true, false, Option, none, some, Result, ok, err, ◌≡◌, ◌≢◌, arith, inl, inr, Bool-cases,
  Result-cases,
}
use evo_bot_runtime.Errors.{Err}
use evo_bot_runtime.Model.{PairId, Stage, PipelineState}
use evo_bot_runtime.Keys.{pair_key}
use evo_bot_runtime.Keys.RoundTrip.{IsInt64Pair, parse_pair_key-pair_key}
use evo_bot_runtime.Prelude.Assoc.{lookup}
use evo_bot_runtime.Repository.{Repository}
use evo_bot_runtime.Debounce
use evo_bot_runtime.Service.State.{Entry, store_entry}
use evo_bot_runtime.Service.Process.{
  S, in_debounce, bare_state, launch_ai_stage, advance_locked, advance_outcome, advance_to_ai,
}
use evo_bot_runtime.Service.Recovery.{
  is_zero_id, advance_if_expired, poll_timer, poll_entry, store_missing, recover_state,
  recover_pair,
}
use evo_bot_runtime.Service.Progress.{Spares}

module _ (r : Repository) (p : PairId) (idle : r.Db → Bool) (spares : Spares r p idle) (q : PairId)
    (hq : IsInt64Pair q) (ne : q ≢ p) where
  advance_locked-idle : (s : S r) → idle s.db ≡ true → idle (advance_locked r q s).0.db ≡ true
  unfolding advance_locked launch_ai_stage Debounce.get_buffer Debounce.get_attachments
  advance_locked-idle s h =
      let g = r.get_state q s.db in
      let x = r.timer_exists q g.0 in
      let b = r.get_buffer q x.0 in
      let a = r.get_attachments q b.0 in
      let hg = spares.state q hq ne s.db h in
      let hx = spares.timer q hq ne g.0 hg in
      let hb = spares.buffer q hq ne x.0 hx in
      let ha = spares.media q hq ne b.0 hb in
      let hw = spares.write q (bare_state Stage.ai s.now) hq ne a.0 ha in ground arith

  advance-idle : (s : S r) → idle s.db ≡ true → idle (advance_to_ai r q s).db ≡ true
  unfolding advance_to_ai advance_outcome
  advance-idle s h =
      let a = r.acquire_lock q s.db in
      let ha = spares.lock q hq ne s.db h in
      let hl = advance_locked-idle (record s { db = a.0 }) ha in
      elim (Result-cases a.1) [
        | inl (mu, e) ↦
            let hu = spares.unlock mu (advance_locked r q (record s { db = a.0 })).0.db hl in
            ground arith
        | inr (x, e) ↦ ground arith
      ]

  advance_if_expired-idle :
      (o : Result Err Bool) (s : S r)
      → idle s.db ≡ true
      → idle (advance_if_expired r q o s).db ≡ true
  advance_if_expired-idle (ok false) s h = advance-idle s h
  advance_if_expired-idle (ok true) s h = h
  advance_if_expired-idle (err e) s h = h

  poll_timer-idle :
      (o : Result Err (Option PipelineState)) (s : S r)
      → idle s.db ≡ true
      → idle (poll_timer r q o s).db ≡ true
  poll_timer-idle (err e) s h = h
  poll_timer-idle (ok o) s h =
      let call = r.timer_exists q s.db in
      elim (Bool-cases (in_debounce o)) [
        | inl z ↦ rw z (
            advance_if_expired-idle call.1 (record s { db = call.0 }) (spares.timer q hq ne s.db h))
        | inr z ↦ rw z h
      ]

  pub poll_entry-idle :
      (e : Entry) (s : S r) → idle s.db ≡ true → idle (poll_entry r (pair_key q) e s).db ≡ true
  unfolding poll_entry
  poll_entry-idle e s h =
      let call = r.get_state q s.db in
      let key = parse_pair_key-pair_key q hq in
      elim (Bool-cases (s.cancelled e.ctx)) [
        | inl z ↦ rw z h
        | inr z ↦ elim (Bool-cases (is_zero_id q.contact_id)) [
          | inl y ↦ rw (z, key, y) h
          | inr y ↦
              rw (z, key, y)
                (poll_timer-idle call.1 (record s { db = call.0 }) (spares.state q hq ne s.db h))
        ]
      ]

  store_missing-idle :
      (st : PipelineState) (o : Option Entry) (s : S r)
      → idle s.db ≡ true
      → idle (store_missing r q st o s).db ≡ true
  unfolding store_entry
  store_missing-idle st none s h = h
  store_missing-idle st (some e) s h = h

  recover_state-idle :
      (st : PipelineState) (s : S r) → idle s.db ≡ true → idle (recover_state r q st s).db ≡ true
  recover_state-idle st s h =
      let t = store_missing r q st (lookup (pair_key q) s.entries) s in
      let call = r.timer_exists q t.db in
      let ht = store_missing-idle st (lookup (pair_key q) s.entries) s h in
      advance_if_expired-idle call.1 (record t { db = call.0 }) (spares.timer q hq ne t.db ht)

  pub recover_pair-idle : (s : S r) → idle s.db ≡ true → idle (recover_pair r q s).db ≡ true
  unfolding recover_pair
  recover_pair-idle s h =
      let g = r.get_state q s.db in
      let t = record s { db = g.0 } in
      let hg = spares.state q hq ne s.db h in
      elim (Result-cases g.1) [
        | inr (x, z) ↦ rw z hg
        | inl (none, z) ↦ rw z hg
        | inl (some st, z) ↦ elim (Bool-cases (in_debounce (some st))) [
          | inl waits ↦ rw (z, waits) (recover_state-idle st t hg)
          | inr past ↦ rw (z, past) hg
        ]
      ]
