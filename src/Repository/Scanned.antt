-- ===== src/Repository/Scanned.antt =====
-- What `ScanStates` returns: the loop over the replies against the list of all the keys at once.
use evo_bot_runtime.Prelude.{
  ℕ, zero, suc, ◌+◌, ◌≤◌, List, [], ◌∷◌, ◌++◌, Option, none, some, Result, ok, err, ◌≡◌, length,
  leb, leb→le, refl, sym, ap, ◌∙◌, arith, inl, inr, Bool-cases, append-nil, append_assoc, All,
  Option-cases,
}
use evo_bot_runtime.Prelude.Text.{Text, codes}
use evo_bot_runtime.Errors.{Err}
use evo_bot_runtime.Model.{PairId}
use evo_bot_runtime.Keys.{parse_state_key}
use evo_bot_runtime.Repository.Redis.{
  Redis, Codec, Scan, running, limited, add_pair, scan_keys, scan_replies, scan_states,
}
use evo_bot_runtime.Keys.RoundTrip.{IsInt64Pair}
use evo_bot_runtime.Keys.Bounds.{parse_state_key-IsInt64Pair}

abbrev pub take : ℕ → List PairId → List PairId
take zero ps = []
take (suc n) [] = []
take (suc n) (p ∷ ps) = p ∷ take n ps

-- The pairs that a list of keys names, the malformed keys left out.
abbrev pub named : List Text → List PairId
named [] = []
named (key ∷ keys) = add_pair (parse_state_key key) [] ++ named keys

-- The pairs that all the replies name.
abbrev pub all_named : List (Result Err (List Text)) → List PairId
all_named [] = []
all_named (err e ∷ replies) = all_named replies
all_named (ok keys ∷ replies) = named keys ++ all_named replies

take_whole : (n : ℕ) (ps : List PairId) → length ps ≤ n → take n ps ≡ ps
take_whole zero [] h = refl
take_whole zero (p ∷ ps) h = ground arith
take_whole (suc n) [] h = refl
take_whole (suc n) (p ∷ ps) h = ap (λ (z : List PairId). p ∷ z) (take_whole n ps (omega arith))

take_exact : (n : ℕ) (ps qs : List PairId) → length ps ≡ n → take n (ps ++ qs) ≡ ps
take_exact zero [] qs h = refl
take_exact zero (p ∷ ps) qs h = ground arith
take_exact (suc n) [] qs h = ground arith
take_exact (suc n) (p ∷ ps) qs h =
    ap (λ (z : List PairId). p ∷ z) (take_exact n ps qs (omega arith))

length-add_pair : (o : Option PairId) (ps : List PairId) → length (add_pair o ps) ≤ length ps + 1
length-add_pair none ps = ground arith
length-add_pair (some p) [] = ground arith
length-add_pair (some p) (q ∷ ps) = ground (arith, length-add_pair (some p) ps)

add_pair-append :
    (o : Option PairId) (ps qs : List PairId) → add_pair o ps ++ qs ≡ ps ++ (add_pair o [] ++ qs)
add_pair-append none ps qs = refl
add_pair-append (some p) ps qs = append_assoc ps (p ∷ []) qs

-- What the keys of a reply make of the pairs so far, whatever the replies behind it name.
abbrev Scanned : ℕ → List PairId → List Text → Scan → Type 0
Scanned max pairs keys (running found) =
    (length found ≤ max) × ((rest : List PairId) → found ++ rest ≡ pairs ++ (named keys ++ rest))
Scanned max pairs keys (limited found) =
    (rest : List PairId) → found ≡ take max (pairs ++ (named keys ++ rest))

scan_keys-Scanned :
    (max : ℕ) (keys : List Text) (pairs : List PairId)
    → length pairs ≤ max
    → Scanned max pairs keys (scan_keys max keys pairs)
unfolding scan_keys
scan_keys-Scanned max [] pairs h = (h, λ rest. refl)
scan_keys-Scanned max (key ∷ keys) pairs h =
    let o = parse_state_key key in
    elim (Bool-cases (leb max (length pairs))) [
      | inl full ↦
          rw full (λ rest. sym (take_exact max pairs _ (ground (arith, leb→le max (length pairs)))))
      | inr room ↦ rw room (
          moved (scan_keys max keys (add_pair o pairs)) (
            scan_keys-Scanned max keys (add_pair o pairs)
              (ground (arith, length-add_pair o pairs))))
    ]
  where
    shift :
        (rest : List PairId)
        → add_pair (parse_state_key key) pairs ++ (named keys ++ rest)
          ≡ pairs ++ (named (key ∷ keys) ++ rest)
    shift rest =
        add_pair-append (parse_state_key key) pairs (named keys ++ rest)
        ∙ ap (λ (z : List PairId). pairs ++ z)
            (sym (append_assoc (add_pair (parse_state_key key) []) (named keys) rest))

    moved :
        (s : Scan)
        → Scanned max (add_pair (parse_state_key key) pairs) keys s
        → Scanned max pairs (key ∷ keys) s
    moved (running found) (l, e) = (l, λ rest. e rest ∙ shift rest)
    moved (limited found) e = λ rest. e rest ∙ ap (take max) (shift rest)

scan_replies-all_named :
    (max : ℕ) (replies : List (Result Err (List Text))) (pairs ps : List PairId)
    → length pairs ≤ max
    → scan_replies max replies pairs ≡ ok ps
    → ps ≡ take max (pairs ++ all_named replies)
unfolding scan_replies
scan_replies-all_named max [] pairs ps h e =
    let same : pairs ≡ ps = cc e in
    sym same ∙ sym (take_whole max pairs h) ∙ ap (take max) (sym (append-nil pairs))
scan_replies-all_named max (err x ∷ replies) pairs ps h e = absurd (cc e)
scan_replies-all_named max (ok keys ∷ replies) pairs ps h e =
    by_scan (scan_keys max keys pairs) (scan_keys-Scanned max keys pairs h)
      (λ found. scan_replies-all_named max replies found ps) e
  where
    by_scan :
        (s : Scan)
        → Scanned max pairs keys s
        → ((found : List PairId)
            → length found ≤ max
            → scan_replies max replies found ≡ ok ps
            → ps ≡ take max (found ++ all_named replies))
        → elim s [ limited found ↦ ok found | running found ↦ scan_replies max replies found ]
          ≡ ok ps
        → ps ≡ take max (pairs ++ (named keys ++ all_named replies))
    by_scan (running found) (l, f) more g = more found l g ∙ ap (take max) (f (all_named replies))
    by_scan (limited found) f more g =
        let same : found ≡ ps = cc g in sym same ∙ f (all_named replies)

-- When `ScanStates` succeeds, its pairs are those that the well-formed keys of all the replies name, in
-- their order, up to the limit.
pub scan_states-take :
    (d : Redis) (k : Codec d.Value) (max : ℕ) (db : d.Db) (ps : List PairId)
    → (scan_states d k max db).1 ≡ ok ps
    → ps ≡ take max (all_named (d.scan (codes "bot_runtime:state:*") db).1)
unfolding scan_states
scan_states-take d k max db ps h =
    scan_replies-all_named max (d.scan (codes "bot_runtime:state:*") db).1 [] ps (omega arith) h

All-append :
    (ps qs : List PairId) → All IsInt64Pair ps → All IsInt64Pair qs → All IsInt64Pair (ps ++ qs)
All-append [] qs h k = k
All-append (p ∷ ps) qs (h, hs) k = (h, All-append ps qs hs k)

All-take : (n : ℕ) (ps : List PairId) → All IsInt64Pair ps → All IsInt64Pair (take n ps)
All-take zero ps h = tt
All-take (suc n) [] h = tt
All-take (suc n) (p ∷ ps) (h, hs) = (h, All-take n ps hs)

named-IsInt64Pair : (keys : List Text) → All IsInt64Pair (named keys)
named-IsInt64Pair [] = tt
named-IsInt64Pair (key ∷ keys) = elim (Option-cases (parse_state_key key)) [
  | inl malformed ↦ rw malformed (named-IsInt64Pair keys)
  | inr (p, e) ↦ rw e (parse_state_key-IsInt64Pair key p e, named-IsInt64Pair keys)
]

all_named-IsInt64Pair :
    (replies : List (Result Err (List Text))) → All IsInt64Pair (all_named replies)
all_named-IsInt64Pair [] = tt
all_named-IsInt64Pair (err e ∷ replies) = all_named-IsInt64Pair replies
all_named-IsInt64Pair (ok keys ∷ replies) =
    All-append (named keys) (all_named replies) (named-IsInt64Pair keys)
      (all_named-IsInt64Pair replies)

-- `ScanStates` returns pairs of int64 ids.
pub scan_states-IsInt64Pair :
    (d : Redis) (k : Codec d.Value) (max : ℕ) (db : d.Db) (ps : List PairId)
    → (scan_states d k max db).1 ≡ ok ps
    → All IsInt64Pair ps
scan_states-IsInt64Pair d k max db ps h =
    let replies = (d.scan (codes "bot_runtime:state:*") db).1 in
    rw (scan_states-take d k max db ps h)
      (All-take max (all_named replies) (all_named-IsInt64Pair replies))
