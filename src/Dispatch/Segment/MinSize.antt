-- ===== src/Dispatch/Segment/MinSize.antt =====
-- What `TextSegmentationMinSize` changes in the parts of an answer.
use evo_bot_runtime.Prelude.{
  ◌<◌, not, List, [], ◌∷◌, length, ◌≡◌, refl, sym, ◌∙◌, All, Bool-cases, inl, inr,
}
use evo_bot_runtime.Prelude.Int.{ℤ, pos_part, is_nonpos}
use evo_bot_runtime.Prelude.Text.{Text}
use evo_bot_runtime.Model.{BotConfig}
use evo_bot_runtime.Dispatch.Segment.{fields, pack, segments, segment_words, segment_content}
use evo_bot_runtime.Dispatch.Segment.Joins.{pack-Tight, merge_if-Tight}
use evo_bot_runtime.Dispatch.Segment.Laws.{words-pos}

segment_words-packed :
    (cfg : BotConfig) (content : Text) (w : Text) (ws : List Text)
    → All (λ x. 0 < length x) (w ∷ ws)
    → segment_words cfg content (w ∷ ws) ≡ pack (pos_part cfg.text_segmentation_limit) (w ∷ ws) [] 0
unfolding pack
segment_words-packed cfg content w ws (h, hs) =
    let limit = pos_part cfg.text_segmentation_limit in
    merge_if-Tight limit (not (is_nonpos cfg.text_segmentation_min_size))
      (pos_part cfg.text_segmentation_min_size) (pack limit ws w (length w))
      (pack-Tight limit ws w (length w) refl h hs).1

segment_words-min_size :
    (cfg : BotConfig) (min_size : ℤ) (content : Text) (ws : List Text)
    → All (λ x. 0 < length x) ws
    → segment_words (record cfg { text_segmentation_min_size = min_size }) content ws
      ≡ segment_words cfg content ws
segment_words-min_size cfg min_size content [] h = refl
segment_words-min_size cfg min_size content (w ∷ ws) h =
    segment_words-packed (record cfg { text_segmentation_min_size = min_size }) content w ws h
    ∙ sym (segment_words-packed cfg content w ws h)

-- The minimal size of a part has no effect: with any other minimal size the parts of an answer are the
-- same, so the merging of short parts into the parts ahead of them never happens.
pub segment_content-min_size :
    (content : Text) (cfg : BotConfig) (min_size : ℤ)
    → segment_content content (record cfg { text_segmentation_min_size = min_size })
      ≡ segment_content content cfg
unfolding segment_content fields
segment_content-min_size content cfg min_size = elim (Bool-cases (segments cfg)) [
  | inl on ↦
      rw on (segment_words-min_size cfg min_size content (fields content) (words-pos content []))
  | inr off ↦ rw off refl
]
