-- ===== src/Tests/Server.antt =====
-- A Redis in memory, as a function from keys to slots, and a codec that keeps what it is given, with the
-- theorems on the repository applied to them.
use evo_bot_runtime.Prelude.{
  Bool, true, false, List, [], ◌∷◌, ◌++◌, Option, none, some, Result, ok, err, if◌then◌else◌, ◌≡◌,
  refl, sym, ap, ◌∙◌, inl, inr, Bool-cases,
}
use evo_bot_runtime.Prelude.Text.{Text, codes, text_eq, text_eq_refl, text_eq_iff}
use evo_bot_runtime.Errors.{Err}
use evo_bot_runtime.Model.{PairId, PipelineState, Attachment}
use evo_bot_runtime.Repository.{Contract, stored}
use evo_bot_runtime.Prelude.Int.{pos}
use evo_bot_runtime.Keys.{parse_state_key}
use evo_bot_runtime.Repository.Scanned.{take, all_named, scan_states-take}
use evo_bot_runtime.Repository.Redis.{
  Redis, Codec, scan_states, scan_replies, scan_keys, new_pipeline_repository,
}
use evo_bot_runtime.Repository.Server.{Slot, no_slot, Member, RedisLaws, CodecLaws}
use evo_bot_runtime.Repository.RedisContract.{redis_contract}
use evo_bot_runtime.Tests.Memory.{ok_injective}

pub data Bytes : Type 0 where
  plain : Text → Bytes
  state_json : PipelineState → Bytes
  attachment_json : Attachment → Bytes

abbrev pub Slots : Type 0
Slots = Text → Slot Bytes

abbrev pub plain_text : Bytes → Text
plain_text (plain t) = t
plain_text (state_json st) = []
plain_text (attachment_json a) = []

abbrev pub put : Text → (Slot Bytes → Slot Bytes) → Slots → Slots
put k change db j = if text_eq k j then change (db j) else db j

abbrev pub del_all : List Text → Slots → Slots
del_all [] db = db
del_all (k ∷ ks) db = put k (λ s. no_slot) (del_all ks db)

abbrev pub is_some : {A : Type 0} → Option A → Bool
is_some none = false
is_some (some a) = true

abbrev pub server : Redis
server = record {
  Db = Slots;
  Mutex = Unit {0};
  Value = Bytes;
  of_text = plain;
  to_text = plain_text;
  get = λ k db. (db, ok (db k).string);
  set = λ k v ttl db. (put k (λ s. record { string = some v; list = [] }) db, ok tt);
  del = λ ks db. (del_all ks db, ok tt);
  rpush = λ k vs db. (put k (λ s. record s { list = s.list ++ vs }) db, ok tt);
  lrange = λ k db. (db, ok (db k).list);
  expire = λ k ttl db. (db, ok tt);
  exists = λ k db. (db, ok (is_some (db k).string));
  scan = λ pattern db. (db, []);
  lock = λ k db. (db, ok tt);
  unlock = λ m db. (db, ok true);
  ping = λ db. (db, ok tt);
}

pub put-here :
    (k : Text) (change : Slot Bytes → Slot Bytes) (db : Slots) → put k change db k ≡ change (db k)
put-here k change db = rw (text_eq_refl k) refl

pub put-elsewhere :
    (k j : Text) (change : Slot Bytes → Slot Bytes) (db : Slots)
    → ¬ (j ≡ k)
    → put k change db j ≡ db j
put-elsewhere k j change db ne = elim (Bool-cases (text_eq k j)) [
  | inl same ↦ absurd (ne (sym ((text_eq_iff k j).0 same)))
  | inr other ↦ rw other refl
]

pub del_all-elsewhere :
    (ks : List Text) (db : Slots) (j : Text) → ¬ (Member j ks) → del_all ks db j ≡ db j
del_all-elsewhere [] db j out = refl
del_all-elsewhere (k ∷ ks) db j out =
    put-elsewhere k j (λ s. no_slot) (del_all ks db) (λ e. out (inl e))
    ∙ del_all-elsewhere ks db j (λ m. out (inr m))

pub del_all-here :
    (ks : List Text) (db : Slots) (j : Text) → Member j ks → del_all ks db j ≡ no_slot
del_all-here [] db j m = absurd m
del_all-here (k ∷ ks) db j (inl e) = rw e (put-here k (λ s. no_slot) (del_all ks db))
del_all-here (k ∷ ks) db j (inr m) = elim (Bool-cases (text_eq k j)) [
  | inl same ↦ rw same refl
  | inr other ↦ rw other (del_all-here ks db j m)
]

abbrev pub server_laws : RedisLaws server
server_laws = record {
  slot = λ db. db;
  text_back = λ t. refl;
  get_touches = λ k db j out. refl;
  get_value = λ k db o h. ok_injective h;
  set_touches =
      λ k v ttl db j out. put-elsewhere k j (λ s. record { string = some v; list = [] }) db out;
  set_here = λ k v ttl db h. put-here k (λ s. record { string = some v; list = [] }) db;
  del_touches = λ ks db j out. del_all-elsewhere ks db j out;
  del_here = λ ks k db m h. del_all-here ks db k m;
  rpush_touches = λ k vs db j out. put-elsewhere k j (λ s. record s { list = s.list ++ vs }) db out;
  rpush_here = λ k vs db h.
      ap (λ (s : Slot Bytes). s.list) (put-here k (λ s. record s { list = s.list ++ vs }) db);
  lrange_touches = λ k db j out. refl;
  lrange_value = λ k db l h. ok_injective h;
  expire_touches = λ k ttl db j out. refl;
  exists_touches = λ k db j out. refl;
  scan_touches = λ pattern db j. refl;
  lock_touches = λ k db j out. refl;
  unlock_touches = λ m db j out. refl;
  ping_touches = λ db j out. refl;
}

abbrev pub read_state : Bytes → Result Err PipelineState
read_state (state_json st) = ok (stored st)
read_state (plain t) = err (Err.foreign (codes "json"))
read_state (attachment_json a) = err (Err.foreign (codes "json"))

abbrev pub read_attachment : Bytes → Result Err Attachment
read_attachment (attachment_json a) = ok a
read_attachment (plain t) = err (Err.foreign (codes "json"))
read_attachment (state_json st) = err (Err.foreign (codes "json"))

abbrev pub json : Codec Bytes
json = record {
  marshal_state = λ st. ok (state_json st);
  unmarshal_state = read_state;
  marshal_attachment = λ a. ok (attachment_json a);
  unmarshal_attachment = read_attachment;
}

abbrev pub json_laws : CodecLaws json
json_laws = record {
  state_back = λ st b h. ap read_state (ok_injective h);
  attachment_back = λ a b h. ap read_attachment (ok_injective h);
}

redis_contract_example : Contract (new_pipeline_repository server json)
redis_contract_example = redis_contract server json server_laws json_laws

-- a server whose SCAN gives two replies, one of the keys malformed
abbrev scanned_server : Redis
scanned_server = record server {
  scan = λ pattern db. (
    db,
    ok (codes "bot_runtime:state:3:7" ∷ codes "bot_runtime:state:x" ∷ [])
        ∷ ok (codes "bot_runtime:state:4:8" ∷ [])
        ∷ [],
  );
}

abbrev first_pair : PairId
first_pair = record { contact_id = pos 3; conversation_id = pos 7 }

one_scanned : (scan_states scanned_server json 1 (λ key. no_slot)).1 ≡ ok (first_pair ∷ [])
unfolding scan_states scan_replies scan_keys parse_state_key
one_scanned = refl

scan_states-take_example :
    first_pair ∷ []
    ≡ take 1 (all_named (scanned_server.scan (codes "bot_runtime:state:*") (λ key. no_slot)).1)
scan_states-take_example =
    scan_states-take scanned_server json 1 (λ key. no_slot) (first_pair ∷ []) one_scanned
