-- ===== src/Repository/RedisContract.antt =====
-- The repository over Redis against the contract of the interface.
use evo_bot_runtime.Prelude.{List, [], ◌∷◌, ok, ◌≡◌, arith, Result-cases, inl, inr}
use evo_bot_runtime.Prelude.Text.{Text, codes}
use evo_bot_runtime.Model.{PairId, Attachment}
use evo_bot_runtime.Keys.{state_key, buffer_key, attach_buffer_key, lock_key, timer_key}
use evo_bot_runtime.Repository.{Contract, Reads}
use evo_bot_runtime.Repository.Redis.{
  Redis, Codec, get_state, get_buffer, get_attachments, set_timer, delete_timer, timer_exists,
  acquire_lock, scan_states, new_pipeline_repository,
}
use evo_bot_runtime.Repository.Scanned.{scan_states-IsInt64Pair}
use evo_bot_runtime.Repository.Server.{Member, RedisLaws, CodecLaws}
use evo_bot_runtime.Repository.Separation.{
  state_timer, state_lock, buffer_timer, buffer_lock, attach_timer, attach_lock, not_only,
}
use evo_bot_runtime.Repository.CellWrites.{
  view, get_state-db, get_state-value, set_state-Writes, clear_state-Writes,
  append_to_buffer-Writes, leaves_view, append_attachments-Writes,
}

module _ (d : Redis) (k : Codec d.Value) (rl : RedisLaws d) (cl : CodecLaws k) where
  get_state-Reads : (p : PairId) → Reads (view d k rl cl) (get_state d k p)
  get_state-Reads p db q = rw (get_state-db d k rl cl p db) (
      leaves_view d k rl cl (λ j. ⊥) (d.get (state_key p)) (rl.get_touches (state_key p)) (λ q h. h)
        (λ q h. h) (λ q h. h) db q)

  get_attachments-db :
      (p : PairId) (db : d.Db)
      → (get_attachments d k p db).0 ≡ (d.lrange (attach_buffer_key p) db).0
  unfolding get_attachments
  get_attachments-db p db = ground arith

  get_attachments-Reads : (p : PairId) → Reads (view d k rl cl) (get_attachments d k p)
  get_attachments-Reads p db q = rw (get_attachments-db p db) (
      leaves_view d k rl cl (λ j. ⊥) (d.lrange (attach_buffer_key p))
        (rl.lrange_touches (attach_buffer_key p)) (λ q h. h) (λ q h. h) (λ q h. h) db q)

  get_attachments-value :
      (p : PairId) (db : d.Db) (l : List Attachment)
      → (get_attachments d k p db).1 ≡ ok l
      → l ≡ (view d k rl cl db p).media
  unfolding get_attachments
  get_attachments-value p db l h = elim (Result-cases (d.lrange (attach_buffer_key p) db).1) [
    | inr (x, e) ↦ absurd (ground arith)
    | inl (raw, e) ↦ ground (arith, rl.lrange_value (attach_buffer_key p) db raw e)
  ]

  get_buffer-db :
      (p : PairId) (db : d.Db) → (get_buffer d k p db).0 ≡ (d.lrange (buffer_key p) db).0
  unfolding get_buffer
  get_buffer-db p db = ground arith

  get_buffer-Reads : (p : PairId) → Reads (view d k rl cl) (get_buffer d k p)
  get_buffer-Reads p db q = rw (get_buffer-db p db) (
      leaves_view d k rl cl (λ j. ⊥) (d.lrange (buffer_key p)) (rl.lrange_touches (buffer_key p))
        (λ q h. h) (λ q h. h) (λ q h. h) db q)

  get_buffer-value :
      (p : PairId) (db : d.Db) (l : List Text)
      → (get_buffer d k p db).1 ≡ ok l
      → l ≡ (view d k rl cl db p).buffer
  unfolding get_buffer
  get_buffer-value p db l h = elim (Result-cases (d.lrange (buffer_key p) db).1) [
    | inr (x, e) ↦ absurd (ground arith)
    | inl (raw, e) ↦ ground (arith, rl.lrange_value (buffer_key p) db raw e)
  ]

  acquire_lock-db :
      (p : PairId) (db : d.Db) → (acquire_lock d k p db).0 ≡ (d.lock (lock_key p) db).0
  unfolding acquire_lock
  acquire_lock-db p db = ground arith

  acquire_lock-Reads : (p : PairId) → Reads (view d k rl cl) (acquire_lock d k p)
  acquire_lock-Reads p db q = rw (acquire_lock-db p db) (
      leaves_view d k rl cl (λ j. j ≡ lock_key p) (d.lock (lock_key p))
        (rl.lock_touches (lock_key p)) (λ q. state_lock q p) (λ q. buffer_lock q p)
        (λ q. attach_lock q p) db q)

  -- The repository over Redis keeps the contract of its interface, given what Redis, redsync and
  -- encoding/json document: the state, the text buffer and the media buffer of a pair are what
  -- its three keys hold, and no operation on one pair disturbs another pair of int64 ids.
  pub redis_contract : Contract (new_pipeline_repository d k)
  unfolding new_pipeline_repository set_timer delete_timer timer_exists scan_states
  redis_contract = record {
    view = view d k rl cl;
    get_state_reads = get_state-Reads;
    get_state_value = get_state-value d k rl cl;
    set_state_writes = set_state-Writes d k rl cl;
    clear_state_writes = clear_state-Writes d k rl cl;
    append_to_buffer_writes = append_to_buffer-Writes d k rl cl;
    get_buffer_reads = get_buffer-Reads;
    get_buffer_value = get_buffer-value;
    append_attachments_writes = append_attachments-Writes d k rl cl;
    get_attachments_reads = get_attachments-Reads;
    get_attachments_value = get_attachments-value;
    set_timer_reads = λ p n.
        leaves_view d k rl cl (λ j. j ≡ timer_key p) (d.set (timer_key p) (d.of_text (codes "1")) n)
          (rl.set_touches (timer_key p) (d.of_text (codes "1")) n) (λ q. state_timer q p)
          (λ q. buffer_timer q p) (λ q. attach_timer q p);
    delete_timer_reads = λ p.
        leaves_view d k rl cl (λ j. Member j (timer_key p ∷ [])) (d.del (timer_key p ∷ []))
          (rl.del_touches (timer_key p ∷ [])) (λ q. not_only (state_timer q p))
          (λ q. not_only (buffer_timer q p)) (λ q. not_only (attach_timer q p));
    timer_exists_reads = λ p.
        leaves_view d k rl cl (λ j. ⊥) (d.exists (timer_key p)) (rl.exists_touches (timer_key p))
          (λ q h. h) (λ q h. h) (λ q h. h);
    acquire_lock_reads = acquire_lock-Reads;
    unlock_reads = λ m.
        leaves_view d k rl cl (λ j. (p : PairId) × (j ≡ lock_key p)) (d.unlock m)
          (rl.unlock_touches m) (λ q (p, e). state_lock q p e) (λ q (p, e). buffer_lock q p e)
          (λ q (p, e). attach_lock q p e);
    scan_states_reads = λ n.
        leaves_view d k rl cl (λ j. ⊥) (scan_states d k n)
          (λ db j h. rl.scan_touches (codes "bot_runtime:state:*") db j) (λ q h. h) (λ q h. h)
          (λ q h. h);
    scan_states_pairs = scan_states-IsInt64Pair d k;
    ping_reads =
        leaves_view d k rl cl (λ j. ⊥) d.ping rl.ping_touches (λ q h. h) (λ q h. h) (λ q h. h);
  }
