-- ===== src/Keys/RoundTrip.antt =====
-- What reading a printed key gives.
use evo_bot_runtime.Prelude.{
  ℕ, zero, suc, ◌+◌, ◌-◌, ◌*◌, ◌/◌, ◌%◌, ◌≤◌, ◌<◌, true, false, some, [], ◌∷◌, ◌++◌, ltb, ◌≡◌, ◌≢◌,
  refl, arith, All, Bool-cases, inl, inr, ltb→lt, ap, ◌∙◌,
}
use evo_bot_runtime.Prelude.Int.{ℤ, pos, negsuc}
use evo_bot_runtime.Prelude.Text.{Text, codes}
use evo_bot_runtime.Model.{PairId}
use evo_bot_runtime.Keys.{
  digits, format, u64_mod, i64_cutoff, scan, parse_uint, to_signed, parse_int, cut, pair_key,
  parse_pair_key, split, parse_state_key, state_key, redis_key,
}

-- The numbers of an int64.
abbrev pub IsInt64 : ℤ → Type 0
IsInt64 (pos n) = n < i64_cutoff
IsInt64 (negsuc n) = n < i64_cutoff

abbrev IsDigit : ℕ → Type 0
IsDigit c = (b'0' ≤ c) × (c ≤ b'9')

scan_digit :
    (d m : ℕ) (out : Text)
    → d < 10
    → m * 10 + d < u64_mod
    → scan ((b'0' + d) ∷ out) m ≡ scan out (m * 10 + d)
unfolding scan
scan_digit d m out h k =
    let same : m * 10 + (b'0' + d - b'0') ≡ m * 10 + d = omega arith in rw same (ground arith)

-- The digits of `n`, read from 0, leave the reader at `n` before what follows them.
scan-digits :
    (fuel n : ℕ) (out : Text) → n ≤ fuel → n < u64_mod → scan (digits fuel n out) 0 ≡ scan out n
unfolding digits
scan-digits zero n out h k =
    let e : n % 10 ≡ n = omega arith in
    let z : 0 * 10 + n ≡ n = omega arith in
    rw e (scan_digit n 0 out (omega arith) (omega arith) ∙ ap (scan out) z)
scan-digits (suc fuel) n out h k = elim (Bool-cases (ltb n 10)) [
  | inl small ↦
      let z : 0 * 10 + n ≡ n = omega arith in
      rw small (scan_digit n 0 out (ltb→lt n 10 small) (omega arith) ∙ ap (scan out) z)
  | inr big ↦
      let z : n / 10 * 10 + n % 10 ≡ n = omega arith in
      rw big (
        scan-digits fuel (n / 10) ((b'0' + n % 10) ∷ out) (ground arith) (omega arith)
        ∙ scan_digit (n % 10) (n / 10) out (omega arith) (omega arith)
        ∙ ap (scan out) z)
]

digits-IsDigit : (fuel n : ℕ) (out : Text) → All IsDigit out → All IsDigit (digits fuel n out)
unfolding digits
digits-IsDigit zero n out h = ((omega arith, omega arith), h)
digits-IsDigit (suc fuel) n out h = elim (Bool-cases (ltb n 10)) [
  | inl small ↦ rw small ((omega arith, ground arith), h)
  | inr big ↦
      rw big (digits-IsDigit fuel (n / 10) ((b'0' + n % 10) ∷ out) ((omega arith, omega arith), h))
]

digits-ne-nil : (fuel n : ℕ) (out : Text) → digits fuel n out ≢ []
unfolding digits
digits-ne-nil zero n out = cc
digits-ne-nil (suc fuel) n out = ground (arith, digits-ne-nil fuel (n / 10) ((b'0' + n % 10) ∷ out))

parse_uint-scan : (s : Text) → s ≢ [] → parse_uint s ≡ scan s 0
unfolding parse_uint
parse_uint-scan [] h = absurd (h refl)
parse_uint-scan (c ∷ s) h = refl

parse_int-scan : (s : Text) → s ≢ [] → All IsDigit s → parse_int s ≡ to_signed false (scan s 0)
unfolding parse_int
parse_int-scan [] h d = absurd (h refl)
parse_int-scan (c ∷ s) h (d, ds) = ground (arith, parse_uint-scan (c ∷ s))

-- ParseInt reads back every int64 that "%d" prints.
pub parse_int-format :
    (x : ℤ) → IsInt64 x → parse_int (format x) ≡ record { number = x; failed = false }
unfolding format
parse_int-format (pos n) h =
    parse_int-scan (digits n n []) (digits-ne-nil n n []) (digits-IsDigit n n [] tt)
    ∙ ap (to_signed false) (scan-digits n n [] (omega arith) (omega arith))
    ∙ to_pos
  where
    to_pos : to_signed false (scan [] n) ≡ record { number = pos n; failed = false }
    to_pos = unfold scan to_signed in ground arith
parse_int-format (negsuc n) h =
    parse_minus
    ∙ ap (to_signed true) (
        parse_uint-scan _ (digits-ne-nil (suc n) (suc n) [])
        ∙ scan-digits (suc n) (suc n) [] (omega arith) (omega arith))
    ∙ to_neg
  where
    parse_minus :
        parse_int (b'-' ∷ digits (suc n) (suc n) [])
        ≡ to_signed true (parse_uint (digits (suc n) (suc n) []))
    parse_minus = unfold parse_int in ground arith

    to_neg : to_signed true (scan [] (suc n)) ≡ record { number = negsuc n; failed = false }
    to_neg = unfold scan to_signed in ground arith

abbrev pub LacksColon : Text → Type 0
LacksColon = All (λ c. c ≢ b':')

digits-LacksColon : (s : Text) → All IsDigit s → LacksColon s
digits-LacksColon [] h = tt
digits-LacksColon (c ∷ s) ((lo, hi), h) = (omega arith, digits-LacksColon s h)

pub format-LacksColon : (x : ℤ) → LacksColon (format x)
unfolding format
format-LacksColon (pos n) = digits-LacksColon (digits n n []) (digits-IsDigit n n [] tt)
format-LacksColon (negsuc n) = (
  omega arith,
  digits-LacksColon (digits (suc n) (suc n) []) (digits-IsDigit (suc n) (suc n) [] tt),
)

pub cut_at : (s t : Text) → LacksColon s → cut (s ++ (b':' ∷ t)) ≡ some (s, t)
unfolding cut
cut_at [] t h = refl
cut_at (c ∷ s) t (h, hs) = ground (arith, cut_at s t hs)

split_at : (s t : Text) → LacksColon s → split (s ++ (b':' ∷ t)) ≡ s ∷ split t
unfolding split
split_at [] t h = refl
split_at (c ∷ s) t (h, hs) = ground (arith, split_at s t hs)

split_whole : (s : Text) → LacksColon s → split s ≡ s ∷ []
unfolding split
split_whole [] h = refl
split_whole (c ∷ s) (h, hs) = ground (arith, split_whole s hs)

-- Pairs of int64 ids.
pub record IsInt64Pair (p : PairId) : Type 0 where
  pub contact : IsInt64 p.contact_id
  pub conversation : IsInt64 p.conversation_id

-- `parsePairKey` is the inverse of `pairKey` on every pair of int64 ids, negative ones included.
pub parse_pair_key-pair_key : (p : PairId) → IsInt64Pair p → parse_pair_key (pair_key p) ≡ p
unfolding parse_pair_key pair_key
parse_pair_key-pair_key p h =
    rw (cut_at (format p.contact_id) (format p.conversation_id) (format-LacksColon p.contact_id)) (
      rw (
        parse_int-format p.contact_id h.contact,
        parse_int-format p.conversation_id h.conversation,
      ))

-- The state key of a pair of int64 ids, as the recovery scan reads it, names that pair.
pub parse_state_key-state_key :
    (p : PairId) → IsInt64Pair p → parse_state_key (state_key p) ≡ some p
unfolding parse_state_key redis_key pair_key
parse_state_key-state_key p h =
    let first : split (state_key p)
        ≡ codes "bot_runtime" ∷ split (codes "state" ++ (b':' ∷ pair_key p)) =
      split_at (codes "bot_runtime") (codes "state" ++ (b':' ∷ pair_key p)) (omega arith) in
    rw first (
      rw (split_at (codes "state") (pair_key p) (omega arith)) (
        rw
          (split_at (format p.contact_id) (format p.conversation_id)
            (format-LacksColon p.contact_id))
          (rw (split_whole (format p.conversation_id) (format-LacksColon p.conversation_id)) (
            rw
              (
                parse_int-format p.contact_id h.contact,
                parse_int-format p.conversation_id h.conversation,
              )
              refl))))
