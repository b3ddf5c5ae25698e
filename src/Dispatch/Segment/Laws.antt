-- ===== src/Dispatch/Segment/Laws.antt =====
-- The laws of segmentation: the words of the parts, and their lengths.
use evo_bot_runtime.Prelude.{
  ℕ, ◌+◌, ◌≤◌, ◌<◌, Bool, true, false, ◌&&◌, not, List, [], ◌∷◌, ◌++◌, length, ltb, leb, ◌==◌, ◌≡◌,
  ◌≢◌, refl, ap, ◌∙◌, arith, ◌⊎◌, inl, inr, All, Bool-cases, append_assoc,
}
use evo_bot_runtime.Prelude.Int.{pos_part, is_nonpos}
use evo_bot_runtime.Prelude.Text.{Text, is_space}
use evo_bot_runtime.Model.{BotConfig}
use evo_bot_runtime.Dispatch.Segment.{
  words, fields, pack, merge_loop, merge, merge_if, segments, segment_words, segment_content,
}
use evo_bot_runtime.Dispatch.Segment.Joins.{Tight, length-joined, pack-Tight, merge_if-Tight}

-- strings.Join(parts, " ")
abbrev pub spaced : List Text → Text
spaced [] = []
spaced (p ∷ []) = p
spaced (p ∷ q ∷ r) = p ++ (32 ∷ spaced (q ∷ r))

-- A word of the list.
abbrev pub IsWord : List Text → Text → Type 0
IsWord [] p = ⊥
IsWord (w ∷ ws) p = (p ≡ w) ⊎ IsWord ws p

-- A part is within the limit, or it is one word, which alone is too long.
abbrev pub Fits : ℕ → List Text → Text → Type 0
Fits limit ws p = (length p ≤ limit) ⊎ IsWord ws p

spaced_cons : (p : Text) (ps : List Text) → ps ≢ [] → spaced (p ∷ ps) ≡ p ++ (32 ∷ spaced ps)
spaced_cons p [] h = absurd (h refl)
spaced_cons p (q ∷ ps) h = refl

-- Joining the first two texts beforehand changes nothing.
spaced_join : (p q : Text) (r : List Text) → spaced ((p ++ (32 ∷ q)) ∷ r) ≡ spaced (p ∷ q ∷ r)
spaced_join p q [] = refl
spaced_join p q (x ∷ r) = append_assoc p (32 ∷ q) (32 ∷ spaced (x ∷ r))

pack-ne-nil :
    (limit : ℕ) (ws : List Text) (current : Text) (runes : ℕ)
    → 0 < runes
    → pack limit ws current runes ≢ []
unfolding pack
pack-ne-nil limit [] current runes h = ground arith
pack-ne-nil limit (w ∷ ws) current runes h =
    ground (arith, pack-ne-nil limit ws (current ++ (32 ∷ w)) (runes + 1 + length w))

pack-spaced :
    (limit : ℕ) (ws : List Text) (current : Text) (runes : ℕ)
    → 0 < runes
    → All (λ w. 0 < length w) ws
    → spaced (pack limit ws current runes) ≡ spaced (current ∷ ws)
unfolding pack
pack-spaced limit [] current runes h ne = ground arith
pack-spaced limit (w ∷ ws) current runes h (hw, ne) =
    elim (Bool-cases (leb (runes + 1 + length w) limit)) [
      | inl fits ↦
          let z : (runes == 0) ≡ false = ground arith in
          rw (z, fits)
            (pack-spaced limit ws (current ++ (32 ∷ w)) (runes + 1 + length w) (omega arith) ne
              ∙ spaced_join current w ws)
      | inr over ↦
          let z : (runes == 0) ≡ false = ground arith in
          rw (z, over)
            (spaced_cons current (pack limit ws w (length w)) (pack-ne-nil limit ws w (length w) hw)
              ∙ ap (λ (t : Text). current ++ (32 ∷ t)) (pack-spaced limit ws w (length w) hw ne))
    ]

merge_loop-ne-nil :
    (limit min_size : ℕ) (ps : List Text) (last : Text) (runes : ℕ)
    → merge_loop limit min_size ps last runes ≢ []
unfolding merge_loop
merge_loop-ne-nil limit min_size [] last runes = cc
merge_loop-ne-nil limit min_size (p ∷ ps) last runes =
    ground (arith, merge_loop-ne-nil limit min_size ps (last ++ (32 ∷ p)) (runes + 1 + length p))

merge_loop-spaced :
    (limit min_size : ℕ) (ps : List Text) (last : Text) (runes : ℕ)
    → spaced (merge_loop limit min_size ps last runes) ≡ spaced (last ∷ ps)
unfolding merge_loop
merge_loop-spaced limit min_size [] last runes = refl
merge_loop-spaced limit min_size (p ∷ ps) last runes =
    elim (Bool-cases (ltb (length p) min_size && leb (runes + 1 + length p) limit)) [
      | inl short ↦ rw short (
          merge_loop-spaced limit min_size ps (last ++ (32 ∷ p)) (runes + 1 + length p)
          ∙ spaced_join last p ps)
      | inr long ↦ rw long (
          spaced_cons last (merge_loop limit min_size ps p (length p))
            (merge_loop-ne-nil limit min_size ps p (length p))
          ∙ ap (λ (t : Text). last ++ (32 ∷ t)) (merge_loop-spaced limit min_size ps p (length p)))
    ]

pub words-pos : (s current : Text) → All (λ w. 0 < length w) (words s current)
unfolding words
words-pos [] [] = tt
words-pos [] (d ∷ current) = (omega arith, tt)
words-pos (c ∷ s) [] = elim (Bool-cases (is_space c)) [
  | inl z ↦ rw z (words-pos s [])
  | inr z ↦ rw z (words-pos s (c ∷ []))
]
words-pos (c ∷ s) (d ∷ current) = elim (Bool-cases (is_space c)) [
  | inl z ↦ rw z (omega arith, words-pos s [])
  | inr z ↦ rw z (words-pos s (d ∷ (current ++ (c ∷ []))))
]

-- Words of a list, none of them empty.
abbrev Words : List Text → List Text → Type 0
Words all_words = All (λ w. IsWord all_words w × (0 < length w))

Words-weaken : (w : Text) (all_words ws : List Text) → Words all_words ws → Words (w ∷ all_words) ws
Words-weaken w all_words [] h = tt
Words-weaken w all_words (x ∷ ws) ((h, k), hs) = ((inr h, k), Words-weaken w all_words ws hs)

Words-self : (ws : List Text) → All (λ w. 0 < length w) ws → Words ws ws
Words-self [] h = tt
Words-self (w ∷ ws) (h, hs) = ((inl refl, h), Words-weaken w ws ws (Words-self ws hs))

module _ (limit : ℕ) (all_words : List Text) where
  pack-Fits :
      (ws : List Text) (current : Text) (runes : ℕ)
      → length current ≡ runes
      → 0 < runes
      → Fits limit all_words current
      → Words all_words ws
      → All (Fits limit all_words) (pack limit ws current runes)
  unfolding pack
  pack-Fits [] current runes e h f w = let z : (runes == 0) ≡ false = ground arith in rw z (f, tt)
  pack-Fits (w ∷ ws) current runes e h f ((hw, pw), hs) =
      let z : (runes == 0) ≡ false = ground arith in
      elim (Bool-cases (leb (runes + 1 + length w) limit)) [
        | inl fits ↦
            let n = length-joined current w runes e in
            rw (z, fits)
              (pack-Fits ws (current ++ (32 ∷ w)) (runes + 1 + length w) n (omega arith)
                (inl (ground arith)) hs)
        | inr over ↦ rw (z, over) (f, pack-Fits ws w (length w) refl pw (inr hw) hs)
      ]

  merge_loop-Fits :
      (min_size : ℕ) (ps : List Text) (last : Text) (runes : ℕ)
      → length last ≡ runes
      → Fits limit all_words last
      → All (Fits limit all_words) ps
      → All (Fits limit all_words) (merge_loop limit min_size ps last runes)
  unfolding merge_loop
  merge_loop-Fits min_size [] last runes e f h = (f, tt)
  merge_loop-Fits min_size (p ∷ ps) last runes e f (fp, h) =
      elim (Bool-cases (ltb (length p) min_size && leb (runes + 1 + length p) limit)) [
        | inl short ↦
            let n = length-joined last p runes e in
            rw short (
              merge_loop-Fits min_size ps (last ++ (32 ∷ p)) (runes + 1 + length p) n
                (inl (ground arith)) h)
        | inr long ↦ rw long (f, merge_loop-Fits min_size ps p (length p) refl fp h)
      ]

  merge_if-Fits :
      (b : Bool) (min_size : ℕ) (ps : List Text)
      → All (Fits limit all_words) ps
      → All (Fits limit all_words) (merge_if b limit min_size ps)
  unfolding merge
  merge_if-Fits false min_size ps h = h
  merge_if-Fits true min_size [] h = tt
  merge_if-Fits true min_size (p ∷ ps) (f, h) = merge_loop-Fits min_size ps p (length p) refl f h

merge_if-spaced :
    (b : Bool) (limit min_size : ℕ) (ps : List Text)
    → spaced (merge_if b limit min_size ps) ≡ spaced ps
unfolding merge
merge_if-spaced false limit min_size ps = refl
merge_if-spaced true limit min_size [] = refl
merge_if-spaced true limit min_size (p ∷ ps) = merge_loop-spaced limit min_size ps p (length p)

-- What segmentation promises of a text with words: the words in their order, one space between them
-- wherever a part ends or not, no part over the limit that is more than one word, and no two neighbours
-- that could be one part.
pub record Segmented (limit : ℕ) (ws parts : List Text) : Type 0 where
  pub words : spaced parts ≡ spaced ws
  pub fits : All (Fits limit ws) parts
  pub tight : Tight limit parts

pack_words-Segmented :
    (b : Bool) (limit min_size : ℕ) (w : Text) (ws : List Text)
    → All (λ x. 0 < length x) (w ∷ ws)
    → Segmented limit (w ∷ ws) (merge_if b limit min_size (pack limit (w ∷ ws) [] 0))
unfolding pack
pack_words-Segmented b limit min_size w ws (h, hs) =
    let ((hw, pw), rest) = Words-self (w ∷ ws) (h, hs) in
    let parts = pack limit ws w (length w) in
    record {
      words = merge_if-spaced b limit min_size parts ∙ pack-spaced limit ws w (length w) h hs;
      fits =
          merge_if-Fits limit (w ∷ ws) b min_size parts
            (pack-Fits limit (w ∷ ws) ws w (length w) refl h (inr (inl refl)) rest);
      tight =
          let packed = (pack-Tight limit ws w (length w) refl h hs).1 in
          rw (merge_if-Tight limit b min_size parts packed) packed;
    }

-- With segmentation on, the parts of a text that has words carry all its words in order, joined by
-- single spaces; each part is within the limit or is one word of the text; and no two neighbouring parts
-- fit into one.
pub segment_content-Segmented :
    (content : Text) (cfg : BotConfig)
    → segments cfg ≡ true
    → fields content ≢ []
    → Segmented
        (pos_part cfg.text_segmentation_limit)
        (fields content)
        (segment_content content cfg)
unfolding segment_content
segment_content-Segmented content cfg on some_words =
    rw on (by_words (fields content) refl some_words (words-pos content []))
  where
    by_words :
        (ws : List Text)
        → fields content ≡ ws
        → ws ≢ []
        → All (λ w. 0 < length w) ws
        → Segmented (pos_part cfg.text_segmentation_limit) ws (segment_words cfg content ws)
    by_words [] e ne h = absurd (ne refl)
    by_words (w ∷ ws) e ne h =
        pack_words-Segmented (not (is_nonpos cfg.text_segmentation_min_size))
          (pos_part cfg.text_segmentation_limit) (pos_part cfg.text_segmentation_min_size) w ws h

-- With segmentation off, or for a text with no word, the content is the only part.
pub segment_content-whole :
    (content : Text) (cfg : BotConfig)
    → (segments cfg ≡ false) ⊎ (fields content ≡ [])
    → segment_content content cfg ≡ content ∷ []
unfolding segment_content
segment_content-whole content cfg (inl off) = rw off
segment_content-whole content cfg (inr bare) = ground arith
