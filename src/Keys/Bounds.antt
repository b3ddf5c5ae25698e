-- ===== src/Keys/Bounds.antt =====
-- The bounds of the ids that are read from keys.
use evo_bot_runtime.Prelude.{
  zero, suc, Bool, true, false, ◌||◌, List, [], ◌∷◌, some, ◌≡◌, arith, inl, inr, Bool-cases, ltb,
  ◌==◌,
}
use evo_bot_runtime.Prelude.Text.{Text}
use evo_bot_runtime.Model.{PairId}
use evo_bot_runtime.Keys.{
  i64_cutoff, Parsed, value, syntax_error, range_error, parse_uint, to_signed, parse_int, split,
  pair_of_parts, parse_state_key,
}
use evo_bot_runtime.Keys.RoundTrip.{IsInt64, IsInt64Pair}

to_signed-IsInt64 : (neg : Bool) (p : Parsed) → IsInt64 (to_signed neg p).number
unfolding to_signed
to_signed-IsInt64 neg syntax_error = omega arith
to_signed-IsInt64 false range_error = omega arith
to_signed-IsInt64 true range_error = omega arith
to_signed-IsInt64 true (value zero) = omega arith
to_signed-IsInt64 false (value n) = elim (Bool-cases (ltb n i64_cutoff)) [
  | inl small ↦ rw small (ground arith)
  | inr large ↦ rw large (omega arith)
]
to_signed-IsInt64 true (value (suc n)) = elim (Bool-cases (ltb n i64_cutoff)) [
  | inl small ↦ rw small (ground arith)
  | inr large ↦ rw large (omega arith)
]

-- `ParseInt` returns an int64 also where it fails.
parse_int-IsInt64 : (s : Text) → IsInt64 (parse_int s).number
unfolding parse_int
parse_int-IsInt64 [] = omega arith
parse_int-IsInt64 (c ∷ s) = elim (Bool-cases (c == b'-')) [
  | inl minus ↦ rw minus (to_signed-IsInt64 true (parse_uint s))
  | inr other ↦ elim (Bool-cases (c == b'+')) [
    | inl plus ↦ rw (other, plus) (to_signed-IsInt64 false (parse_uint s))
    | inr digit ↦ rw (other, digit) (to_signed-IsInt64 false (parse_uint (c ∷ s)))
  ]
]

pair_of_parts-IsInt64Pair :
    (parts : List Text) (p : PairId) → pair_of_parts parts ≡ some p → IsInt64Pair p
unfolding pair_of_parts
pair_of_parts-IsInt64Pair (a ∷ b ∷ c ∷ d ∷ []) p h =
    elim (Bool-cases ((parse_int c).failed || (parse_int d).failed)) [
      | inl bad ↦ absurd (cc (rw bad at h))
      | inr good ↦
          let same : record {
            contact_id = (parse_int c).number;
            conversation_id = (parse_int d).number;
          }
              ≡ p =
            cc (rw good at h) in
          rw (← same) (record { contact = parse_int-IsInt64 c; conversation = parse_int-IsInt64 d })
    ]
pair_of_parts-IsInt64Pair _ p h = absurd (cc h)

-- A key that is read as a state key names a pair of int64 ids.
pub parse_state_key-IsInt64Pair :
    (key : Text) (p : PairId) → parse_state_key key ≡ some p → IsInt64Pair p
unfolding parse_state_key
parse_state_key-IsInt64Pair key p h = pair_of_parts-IsInt64Pair (split key) p h
