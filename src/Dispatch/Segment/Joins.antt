-- ===== src/Dispatch/Segment/Joins.antt =====
-- Which neighbouring parts of a segmented text could be one part.
use evo_bot_runtime.Prelude.{
  ℕ, ◌+◌, ◌≤◌, ◌<◌, Bool, true, false, ◌&&◌, List, [], ◌∷◌, ◌++◌, length, ltb, leb, ◌==◌,
  length-append, ◌≡◌, refl, ap, arith, inl, inr, All, Bool-cases,
}
use evo_bot_runtime.Prelude.Text.{Text}
use evo_bot_runtime.Dispatch.Segment.{pack, merge_loop, merge, merge_if}

-- No two neighbours fit into one part with a space between them.
abbrev pub Tight : ℕ → List Text → Type 0
Tight limit [] = Unit {0}
Tight limit (a ∷ []) = Unit {0}
Tight limit (a ∷ b ∷ ps) = (limit < length a + 1 + length b) × Tight limit (b ∷ ps)

-- The first part, if there is one, has at least this length.
abbrev FirstAtLeast : ℕ → List Text → Type 0
FirstAtLeast n [] = Unit {0}
FirstAtLeast n (a ∷ ps) = n ≤ length a

Tight-cons :
    (limit n : ℕ) (a : Text) (ps : List Text)
    → limit < length a + 1 + n
    → FirstAtLeast n ps
    → Tight limit ps
    → Tight limit (a ∷ ps)
Tight-cons limit n a [] over first t = tt
Tight-cons limit n a (b ∷ ps) over first t = (omega arith, t)

pub length-joined : (a b : Text) (n : ℕ) → length a ≡ n → length (a ++ (32 ∷ b)) ≡ n + 1 + length b
length-joined a b n h = omega (arith, length-append a (32 ∷ b))

module _ (limit : ℕ) where
  FirstAtLeast-le : (m n : ℕ) (ps : List Text) → m ≤ n → FirstAtLeast n ps → FirstAtLeast m ps
  FirstAtLeast-le m n [] h first = tt
  FirstAtLeast-le m n (a ∷ ps) h first = omega arith

  pub pack-Tight :
      (ws : List Text) (current : Text) (runes : ℕ)
      → length current ≡ runes
      → 0 < runes
      → All (λ w. 0 < length w) ws
      → FirstAtLeast runes (pack limit ws current runes) × Tight limit (pack limit ws current runes)
  unfolding pack
  pack-Tight [] current runes e h hs =
      let z : (runes == 0) ≡ false = ground arith in rw z (omega arith, tt)
  pack-Tight (w ∷ ws) current runes e h (hw, hs) =
      let z : (runes == 0) ≡ false = ground arith in
      elim (Bool-cases (leb (runes + 1 + length w) limit)) [
        | inl fits ↦
            let joined = current ++ (32 ∷ w) in
            let n = length-joined current w runes e in
            let (first, t) = pack-Tight ws joined (runes + 1 + length w) n (omega arith) hs in
            rw (z, fits)
              (
                FirstAtLeast-le runes (runes + 1 + length w)
                    (pack limit ws joined (runes + 1 + length w)) (omega arith) first,
                t,
              )
        | inr over ↦
            let (first, t) = pack-Tight ws w (length w) refl hw hs in
            let long : limit < length current + 1 + length w = ground arith in
            rw (z, over)
              (
                omega arith,
                Tight-cons limit (length w) current (pack limit ws w (length w)) long first t,
              )
      ]

  merge_loop-Tight :
      (min_size : ℕ) (ps : List Text) (last : Text) (runes : ℕ)
      → length last ≡ runes
      → Tight limit (last ∷ ps)
      → merge_loop limit min_size ps last runes ≡ last ∷ ps
  unfolding merge_loop
  merge_loop-Tight min_size [] last runes e t = refl
  merge_loop-Tight min_size (p ∷ ps) last runes e (over, t) =
      let apart : (ltb (length p) min_size && leb (runes + 1 + length p) limit) ≡ false =
        ground arith in
      rw apart (ap (λ (z : List Text). last ∷ z) (merge_loop-Tight min_size ps p (length p) refl t))

  -- Merging never finds a part to merge: what could be joined, packing has joined already.
  pub merge_if-Tight :
      (b : Bool) (min_size : ℕ) (ps : List Text)
      → Tight limit ps
      → merge_if b limit min_size ps ≡ ps
  unfolding merge
  merge_if-Tight false min_size ps t = refl
  merge_if-Tight true min_size [] t = refl
  merge_if-Tight true min_size (p ∷ ps) t = merge_loop-Tight min_size ps p (length p) refl t
