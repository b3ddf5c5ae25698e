-- ===== src/Keys.antt =====
-- The keys of a pair: fmt's "%d" and strconv.ParseInt on int64 as far as the keys use them, `pairKey`
-- and `parsePairKey` of pkg/pipeline/service/pipeline_service.go, and the key functions of
-- pkg/pipeline/repository/redis_pipeline_repository.go.
pub mod Bounds
pub mod RoundTrip
pub mod Injective
use evo_bot_runtime.Prelude.{
  ℕ, zero, suc, ◌+◌, ◌-◌, ◌*◌, ◌/◌, ◌%◌, ◌^◌, Bool, true, false, ◌&&◌, ◌||◌, Option, none, some,
  List, [], ◌∷◌, ◌++◌, ltb, leb, ◌==◌, if◌then◌else◌,
}
use evo_bot_runtime.Prelude.Int.{ℤ, pos, negsuc}
use evo_bot_runtime.Prelude.Text.{Text, codes}
use evo_bot_runtime.Model.{PairId}

-- The digits of a number before what is written already. The fuel `n` is enough: each round
-- divides by ten.
unfoldable pub digits : ℕ → ℕ → Text → Text
digits zero n out = (b'0' + n % 10) ∷ out
digits (suc fuel) n out =
    let rest = digits fuel (n / 10) ((b'0' + n % 10) ∷ out) in
    if ltb n 10 then (b'0' + n) ∷ out else rest

-- `%d`
unfoldable pub format : ℤ → Text
unfolding digits
format (pos n) = digits n n []
format (negsuc n) = b'-' ∷ digits (suc n) (suc n) []

-- What strconv.ParseUint comes to in 64 bits.
pub data Parsed : Type 0 where
  value : ℕ → Parsed
  syntax_error range_error : Parsed

abbrev pub u64_mod : ℕ
u64_mod = 2 ^ 64

abbrev pub i64_cutoff : ℕ
i64_cutoff = 2 ^ 63

unfoldable pub scan : Text → ℕ → Parsed
scan [] n = value n
scan (c ∷ s) n =
    let rest = scan s (n * 10 + (c - b'0')) in
    if leb b'0' c && leb c b'9'
    then if ltb (n * 10 + (c - b'0')) u64_mod then rest else range_error
    else syntax_error

unfoldable pub parse_uint : Text → Parsed
unfolding scan
parse_uint [] = syntax_error
parse_uint (c ∷ s) = scan (c ∷ s) 0

-- The value and whether there is an error: out of range the value is the nearest int64.
pub record ParsedInt : Type 0 where
  pub number : ℤ
  pub failed : Bool

unfoldable pub to_signed : Bool → Parsed → ParsedInt
to_signed neg syntax_error = record { number = pos 0; failed = true }
to_signed false range_error = record { number = pos (i64_cutoff - 1); failed = true }
to_signed true range_error = record { number = negsuc (i64_cutoff - 1); failed = true }
to_signed false (value n) =
    if ltb n i64_cutoff
    then record { number = pos n; failed = false }
    else record { number = pos (i64_cutoff - 1); failed = true }
to_signed true (value zero) = record { number = pos 0; failed = false }
to_signed true (value (suc n)) =
    if ltb n i64_cutoff
    then record { number = negsuc n; failed = false }
    else record { number = negsuc (i64_cutoff - 1); failed = true }

-- strconv.ParseInt(s, 10, 64)
unfoldable pub parse_int : Text → ParsedInt
unfolding parse_uint to_signed
parse_int [] = record { number = pos 0; failed = true }
parse_int (c ∷ s) =
    if c == b'-'
    then to_signed true (parse_uint s)
    else if c == b'+'
    then to_signed false (parse_uint s)
    else to_signed false (parse_uint (c ∷ s))

-- strings.SplitN(key, ":", 2): the text before and behind the first colon
unfoldable pub cut : Text → Option (Text × Text)
cut [] = none
cut (c ∷ s) =
    if c == b':' then some ([], s) else elim (cut s) [ none ↦ none | some (a, b) ↦ some (c ∷ a, b) ]

unfoldable pub pair_key : PairId → Text
unfolding format
pair_key p = format p.contact_id ++ (b':' ∷ format p.conversation_id)

abbrev pub parse_parts : Option (Text × Text) → PairId
parse_parts none = record { contact_id = pos 0; conversation_id = pos 0 }
parse_parts (some (a, b)) = record {
  contact_id = (parse_int a).number;
  conversation_id = (parse_int b).number;
}

unfoldable pub parse_pair_key : Text → PairId
unfolding cut parse_int
parse_pair_key key = parse_parts (cut key)

-- the format of the five keys, with their literal "bot_runtime:{type}:%d:%d"
unfoldable pub redis_key : Text → PairId → Text
unfolding pair_key
redis_key kind p = codes "bot_runtime:" ++ (kind ++ (b':' ∷ pair_key p))

-- strings.Split(key, ":")
unfoldable pub split : Text → List Text
split [] = [] ∷ []
split (c ∷ s) =
    if c == b':'
    then [] ∷ split s
    else elim (split s) [ [] ↦ (c ∷ []) ∷ [] | part ∷ parts ↦ (c ∷ part) ∷ parts ]

-- the pair of a key of four parts, if both ids parse
unfoldable pub pair_of_parts : List Text → Option PairId
unfolding parse_int
pair_of_parts (a ∷ b ∷ c ∷ d ∷ []) =
    let contact = parse_int c in
    let conversation = parse_int d in
    if contact.failed || conversation.failed
    then none
    else some (record { contact_id = contact.number; conversation_id = conversation.number })
pair_of_parts _ = none

-- one round of the loop of `ScanStates` over the scanned keys
unfoldable pub parse_state_key : Text → Option PairId
unfolding split pair_of_parts
parse_state_key key = pair_of_parts (split key)

abbrev pub state_key : PairId → Text
state_key = redis_key (codes "state")

abbrev pub buffer_key : PairId → Text
buffer_key = redis_key (codes "buffer")

abbrev pub attach_buffer_key : PairId → Text
attach_buffer_key = redis_key (codes "attach")

abbrev pub lock_key : PairId → Text
lock_key = redis_key (codes "lock")

abbrev pub timer_key : PairId → Text
timer_key = redis_key (codes "timer")
