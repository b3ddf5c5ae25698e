-- ===== src/Dispatch/Segment.antt =====
-- `segmentContent`: the answer in parts of whole words.
pub mod Joins
pub mod Laws
pub mod MinSize
use evo_bot_runtime.Prelude.{
  ℕ, zero, suc, ◌+◌, Bool, true, false, ◌&&◌, not, List, [], ◌∷◌, ◌++◌, length, ltb, leb, ◌==◌,
  if◌then◌else◌,
}
use evo_bot_runtime.Prelude.Int.{pos_part, is_nonpos}
use evo_bot_runtime.Prelude.Text.{Text, is_empty, is_space}
use evo_bot_runtime.Model.{BotConfig}

-- strings.Fields: the words that begin with what is read of the first one already
unfoldable pub words : Text → Text → List Text
words [] current = if is_empty current then [] else current ∷ []
words (c ∷ s) current =
    let next = words s [] in
    let more = words s (current ++ (c ∷ [])) in
    if is_space c then if is_empty current then next else current ∷ next else more

unfoldable pub fields : Text → List Text
unfolding words is_space
fields s = words s []

-- the greedy loop over the words: `current` and `currentRunes`
unfoldable pub pack : ℕ → List Text → Text → ℕ → List Text
pack limit [] current runes = if runes == 0 then [] else current ∷ []
pack limit (word ∷ rest) current runes =
    let first = pack limit rest (current ++ word) (length word) in
    let joined = pack limit rest (current ++ (32 ∷ word)) (runes + 1 + length word) in
    let next = pack limit rest word (length word) in
    if runes == 0
    then first
    else if leb (runes + 1 + length word) limit
    then joined
    else current ∷ next

-- the merging loop; the last part of `merged` and its runes are apart from the others
unfoldable pub merge_loop : ℕ → ℕ → List Text → Text → ℕ → List Text
merge_loop limit min_size [] last runes = last ∷ []
merge_loop limit min_size (p ∷ ps) last runes =
    let joined = merge_loop limit min_size ps (last ++ (32 ∷ p)) (runes + 1 + length p) in
    let next = merge_loop limit min_size ps p (length p) in
    if ltb (length p) min_size && leb (runes + 1 + length p) limit then joined else last ∷ next

unfoldable pub merge : ℕ → ℕ → List Text → List Text
unfolding merge_loop
merge limit min_size [] = []
merge limit min_size (p ∷ ps) = merge_loop limit min_size ps p (length p)

-- `if cfg.TextSegmentationMinSize <= 0 || len(rawParts) <= 1 { … }`; a list of one part merges to
-- itself
abbrev pub merge_if : Bool → ℕ → ℕ → List Text → List Text
merge_if true limit min_size parts = merge limit min_size parts
merge_if false limit min_size parts = parts

abbrev pub segment_words : BotConfig → Text → List Text → List Text
segment_words cfg content [] = content ∷ []
segment_words cfg content (w ∷ ws) =
    merge_if (not (is_nonpos cfg.text_segmentation_min_size)) (pos_part cfg.text_segmentation_limit)
      (pos_part cfg.text_segmentation_min_size)
      (pack (pos_part cfg.text_segmentation_limit) (w ∷ ws) [] 0)

-- segmentation is on and has a limit
abbrev pub segments : BotConfig → Bool
segments cfg = cfg.text_segmentation_enabled && not (is_nonpos cfg.text_segmentation_limit)

unfoldable pub segment_content : Text → BotConfig → List Text
unfolding fields pack merge
segment_content content cfg =
    if segments cfg then segment_words cfg content (fields content) else content ∷ []
