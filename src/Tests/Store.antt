-- ===== src/Tests/Store.antt =====
-- A repository in memory whose timers run until they expire and whose locks exclude each other, with the
-- contract of the interface; the states of the store in which it serves a pair.
use evo_bot_runtime.Prelude.{
  Bool, true, false, not, ◌&&◌, List, [], ◌∷◌, ◌++◌, some, ok, err, if◌then◌else◌, ◌≡◌, ◌≢◌, refl,
  arith, All, inl, inr, Bool-cases,
}
use evo_bot_runtime.Prelude.Text.{Text, text_eq, text_eq_refl, text_eq_iff}
use evo_bot_runtime.Errors.{Err, Sentinel}
use evo_bot_runtime.Model.{PairId}
use evo_bot_runtime.Keys.{pair_key}
use evo_bot_runtime.Keys.RoundTrip.{IsInt64Pair}
use evo_bot_runtime.Keys.Injective.{pair_key-injective}
use evo_bot_runtime.Monad.{M}
use evo_bot_runtime.Repository.{Repository, Cell, Contract, Writes, stored, empty_cell}
use evo_bot_runtime.Service.Progress.{Serves, Spares}
use evo_bot_runtime.Tests.Memory.{ok_injective}

-- The cells of the pairs, the timers that run, and the locks that are held, each by the pair's key.
pub record Store : Type 0 where
  pub cells : Text → Cell
  pub timers : Text → Bool
  pub locks : Text → Bool

abbrev pub no_store : Store
no_store = record { cells = λ k. empty_cell; timers = λ k. false; locks = λ k. false }

abbrev pub stored_cell : Store → PairId → Cell
stored_cell db p = db.cells (pair_key p)

-- all timers expire
abbrev pub expire : Store → Store
expire db = record db { timers = λ k. false }

abbrev set : {A : Type 0} → Text → A → (Text → A) → Text → A
set k a f j = if text_eq k j then a else f j

abbrev change_cell : PairId → (Cell → Cell) → M Store (Unit {0})
change_cell p change db = (
  record db { cells = λ k. if text_eq (pair_key p) k then change (db.cells k) else db.cells k },
  ok tt,
)

abbrev take_lock : Text → Bool → M Store Text
take_lock k true db = (db, err (Err.sentinel Sentinel.lock_failed))
take_lock k false db = (record db { locks = set k true db.locks }, ok k)

-- `known`: the pairs that a scan finds
abbrev pub store_of : List PairId → Repository
store_of known = record {
  Db = Store;
  Mutex = Text;
  get_state = λ p db. (db, ok (stored_cell db p).state);
  set_state = λ p st. change_cell p (λ c. record c { state = some (stored st) });
  clear_state = λ p. change_cell p (λ c. empty_cell);
  append_to_buffer = λ p t. change_cell p (λ c. record c { buffer = c.buffer ++ (t ∷ []) });
  get_buffer = λ p db. (db, ok (stored_cell db p).buffer);
  append_attachments = λ p new. change_cell p (λ c. record c { media = c.media ++ new });
  get_attachments = λ p db. (db, ok (stored_cell db p).media);
  set_timer = λ p n db. (record db { timers = set (pair_key p) true db.timers }, ok tt);
  delete_timer = λ p db. (record db { timers = set (pair_key p) false db.timers }, ok tt);
  timer_exists = λ p db. (db, ok (db.timers (pair_key p)));
  acquire_lock = λ p db. take_lock (pair_key p) (db.locks (pair_key p)) db;
  unlock = λ k db. (record db { locks = set k false db.locks }, ok true);
  scan_states = λ n db. (db, ok known);
  ping = λ db. (db, ok tt);
}

pub change_cell-Writes :
    (p : PairId) (change : Cell → Cell) → Writes stored_cell p change (change_cell p change)
change_cell-Writes p change = record {
  here = λ db h. rw (text_eq_refl (pair_key p)) refl;
  elsewhere = λ db q hp hq ne. elim (Bool-cases (text_eq (pair_key p) (pair_key q))) [
    | inl same ↦
        absurd (ne (pair_key-injective p q hp hq ((text_eq_iff (pair_key p) (pair_key q)).0 same)))
    | inr other ↦ rw other refl
  ];
}

pub take_lock-cell :
    (k : Text) (held : Bool) (db : Store) (q : PairId)
    → stored_cell (take_lock k held db).0 q ≡ stored_cell db q
take_lock-cell k true db q = refl
take_lock-cell k false db q = refl

abbrev pub store_contract :
    (known : List PairId) → All IsInt64Pair known → Contract (store_of known)
store_contract known ints = record {
  view = stored_cell;
  get_state_reads = λ p db q. refl;
  get_state_value = λ p db o h. ok_injective h;
  set_state_writes = λ p st. change_cell-Writes p (λ c. record c { state = some (stored st) });
  clear_state_writes = λ p. change_cell-Writes p (λ c. empty_cell);
  append_to_buffer_writes =
      λ p t. change_cell-Writes p (λ c. record c { buffer = c.buffer ++ (t ∷ []) });
  get_buffer_reads = λ p db q. refl;
  get_buffer_value = λ p db b h. ok_injective h;
  append_attachments_writes =
      λ p new. change_cell-Writes p (λ c. record c { media = c.media ++ new });
  get_attachments_reads = λ p db q. refl;
  get_attachments_value = λ p db l h. ok_injective h;
  set_timer_reads = λ p n db q. refl;
  delete_timer_reads = λ p db q. refl;
  timer_exists_reads = λ p db q. refl;
  acquire_lock_reads = λ p db q. take_lock-cell (pair_key p) (db.locks (pair_key p)) db q;
  unlock_reads = λ m db q. refl;
  scan_states_reads = λ n db q. refl;
  scan_states_pairs = λ n db ps h. rw (ok_injective h) ints;
  ping_reads = λ db q. refl;
}

-- the timer of the pair has expired, and its lock is free
abbrev pub is_idle : PairId → Store → Bool
is_idle p db = not (db.timers (pair_key p)) && not (db.locks (pair_key p))

-- the timer of the pair has expired, and its lock is the one that was taken
abbrev pub is_locked : PairId → Text → Store → Bool
is_locked p k db = not (db.timers (pair_key p)) && text_eq k (pair_key p)

pub idle_timer : (p : PairId) (db : Store) → is_idle p db ≡ true → db.timers (pair_key p) ≡ false
idle_timer p db h = ground arith

pub locked_timer :
    (p : PairId) (k : Text) (db : Store) → is_locked p k db ≡ true → db.timers (pair_key p) ≡ false
locked_timer p k db h = ground arith

pub idle_lock : (p : PairId) (db : Store) → is_idle p db ≡ true → db.locks (pair_key p) ≡ false
idle_lock p db h = ground arith

pub unlock-idle :
    (p : PairId) (mu : Text) (db : Store)
    → is_locked p mu db ≡ true
    → is_idle p (record db { locks = set mu false db.locks }) ≡ true
unlock-idle p mu db h = ground arith

pub take_lock-locked :
    (p : PairId) (db : Store) (held : Bool)
    → held ≡ false
    → db.timers (pair_key p) ≡ false
    → (mu : Text) × ((take_lock (pair_key p) held db).1 ≡ ok mu)
      × (is_locked p mu (take_lock (pair_key p) held db).0 ≡ true)
take_lock-locked p db true h expired = absurd (cc h)
take_lock-locked p db false h expired =
    (pair_key p, refl, rw (expired, text_eq_refl (pair_key p)) refl)

abbrev pub store-Serves : (known : List PairId) (p : PairId) → Serves (store_of known) p
store-Serves known p = record {
  idle = is_idle p;
  locked = is_locked p;
  state = λ db h. (h, _, refl);
  expired = λ db h. (h, rw (idle_timer p db h) refl);
  acquire =
      λ db h. take_lock-locked p db (db.locks (pair_key p)) (idle_lock p db h) (idle_timer p db h);
  locked_state = λ mu db h. (h, _, refl);
  locked_expired = λ mu db h. (h, rw (locked_timer p mu db h) refl);
  buffer = λ mu db h. (h, _, refl);
  media = λ mu db h. (h, _, refl);
  locked_write = λ mu st db h. (h, _, refl);
  unlock = λ mu db h. unlock-idle p mu db h;
  write = λ st db h. (h, _, refl);
  clear = λ db h. (h, _, refl);
}

take_lock-spares :
    (p : PairId) (k : Text) (held : Bool) (db : Store)
    → text_eq k (pair_key p) ≡ false
    → is_idle p db ≡ true
    → is_idle p (take_lock k held db).0 ≡ true
take_lock-spares p k true db other h = h
take_lock-spares p k false db other h = rw other h

keys_differ :
    (p q : PairId)
    → IsInt64Pair p
    → IsInt64Pair q
    → q ≢ p
    → text_eq (pair_key q) (pair_key p) ≡ false
keys_differ p q hp hq ne = elim (Bool-cases (text_eq (pair_key q) (pair_key p))) [
  | inl same ↦
      absurd (ne (pair_key-injective q p hq hp ((text_eq_iff (pair_key q) (pair_key p)).0 same)))
  | inr other ↦ other
]

pub store-Spares :
    (known : List PairId) (p : PairId) → IsInt64Pair p → Spares (store_of known) p (is_idle p)
store-Spares known p hp = record {
  state = λ q hq ne db h. h;
  timer = λ q hq ne db h. h;
  lock = λ q hq ne db h.
      take_lock-spares p (pair_key q) (db.locks (pair_key q)) db (keys_differ p q hp hq ne) h;
  buffer = λ q hq ne db h. h;
  media = λ q hq ne db h. h;
  write = λ q st hq ne db h. h;
  unlock = λ mu db h. ground arith;
  scan = λ n db h. h;
}
