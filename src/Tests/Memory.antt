-- ===== src/Tests/Memory.antt =====
-- A repository in memory, which keeps the contract of the interface: a function from the keys of the
-- pairs to their cells, a lock that is free or held, and a timer that is running or has expired.
use evo_bot_runtime.Prelude.{
  Bool, true, false, [], ◌∷◌, ◌++◌, some, Result, ok, err, if◌then◌else◌, ◌≡◌, refl, Bool-cases,
  inl, inr, List, All,
}
use evo_bot_runtime.Prelude.Text.{Text, text_eq, text_eq_refl, text_eq_iff}
use evo_bot_runtime.Keys.RoundTrip.{IsInt64Pair}
use evo_bot_runtime.Errors.{Err, Sentinel}
use evo_bot_runtime.Model.{PairId}
use evo_bot_runtime.Keys.{pair_key}
use evo_bot_runtime.Keys.Injective.{pair_key-injective}
use evo_bot_runtime.Monad.{M}
use evo_bot_runtime.Repository.{Repository, Cell, Contract, Writes, stored, empty_cell}

abbrev pub Cells : Type 0
Cells = Text → Cell

abbrev pub no_cells : Cells
no_cells k = empty_cell

abbrev pub cell_of : Cells → PairId → Cell
cell_of db p = db (pair_key p)

abbrev write : PairId → (Cell → Cell) → M Cells (Unit {0})
write p change db = (λ k. if text_eq (pair_key p) k then change (db k) else db k, ok tt)

abbrev lock_if : Bool → M Cells (Unit {0})
lock_if true db = (db, err (Err.sentinel Sentinel.lock_failed))
lock_if false db = (db, ok tt)

-- `known`: the pairs that a scan finds; `held`: the lock is held by another; `running`: every timer is
-- running
abbrev pub memory_of : List PairId → Bool → Bool → Repository
memory_of known held running = record {
  Db = Cells;
  Mutex = Unit {0};
  get_state = λ p db. (db, ok (cell_of db p).state);
  set_state = λ p st. write p (λ c. record c { state = some (stored st) });
  clear_state = λ p. write p (λ c. empty_cell);
  append_to_buffer = λ p t. write p (λ c. record c { buffer = c.buffer ++ (t ∷ []) });
  get_buffer = λ p db. (db, ok (cell_of db p).buffer);
  append_attachments = λ p new. write p (λ c. record c { media = c.media ++ new });
  get_attachments = λ p db. (db, ok (cell_of db p).media);
  set_timer = λ p n db. (db, ok tt);
  delete_timer = λ p db. (db, ok tt);
  timer_exists = λ p db. (db, ok running);
  acquire_lock = λ p. lock_if held;
  unlock = λ m db. (db, ok true);
  scan_states = λ n db. (db, ok known);
  ping = λ db. (db, ok tt);
}

abbrev pub memory : Bool → Bool → Repository
memory = memory_of []

pub write-Writes : (p : PairId) (change : Cell → Cell) → Writes cell_of p change (write p change)
write-Writes p change = record {
  here = λ db h. rw (text_eq_refl (pair_key p)) refl;
  elsewhere = λ db q hp hq ne. elim (Bool-cases (text_eq (pair_key p) (pair_key q))) [
    | inl same ↦
        absurd (ne (pair_key-injective p q hp hq ((text_eq_iff (pair_key p) (pair_key q)).0 same)))
    | inr other ↦ rw other refl
  ];
}

pub lock_if-db : (held : Bool) (db : Cells) → (lock_if held db).0 ≡ db
lock_if-db true db = refl
lock_if-db false db = refl

pub ok_injective : {A : Type 0} {a b : A} → Path (Result Err A) (ok a) (ok b) → b ≡ a
ok_injective h = cc h

abbrev pub memory_contract_of :
    (known : List PairId) (held running : Bool)
    → All IsInt64Pair known
    → Contract (memory_of known held running)
memory_contract_of known held running ints = record {
  view = cell_of;
  get_state_reads = λ p db q. refl;
  get_state_value = λ p db o h. ok_injective h;
  set_state_writes = λ p st. write-Writes p (λ c. record c { state = some (stored st) });
  clear_state_writes = λ p. write-Writes p (λ c. empty_cell);
  append_to_buffer_writes = λ p t. write-Writes p (λ c. record c { buffer = c.buffer ++ (t ∷ []) });
  get_buffer_reads = λ p db q. refl;
  get_buffer_value = λ p db b h. ok_injective h;
  append_attachments_writes = λ p new. write-Writes p (λ c. record c { media = c.media ++ new });
  get_attachments_reads = λ p db q. refl;
  get_attachments_value = λ p db l h. ok_injective h;
  set_timer_reads = λ p n db q. refl;
  delete_timer_reads = λ p db q. refl;
  timer_exists_reads = λ p db q. refl;
  acquire_lock_reads = λ p db q. rw (lock_if-db held db) refl;
  unlock_reads = λ m db q. refl;
  scan_states_reads = λ n db q. refl;
  scan_states_pairs = λ n db ps h. rw (ok_injective h) ints;
  ping_reads = λ db q. refl;
}

abbrev pub memory_contract : (held running : Bool) → Contract (memory held running)
memory_contract held running = memory_contract_of [] held running tt
