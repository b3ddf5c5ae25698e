-- ===== src/Tests/Texts.antt =====
-- The theorems on keys, texts and validation, applied to small inputs.
use evo_bot_runtime.Prelude.{true, false, [], ◌∷◌, none, some, ok, ◌≡◌, ◌≢◌, ◌↔◌, refl, arith, map}
use evo_bot_runtime.Prelude.Int.{pos, negsuc}
use evo_bot_runtime.Prelude.Text.{Text, codes, trim_space, is_space}
use evo_bot_runtime.Model.{PairId}
use evo_bot_runtime.Config.{Environment}
use evo_bot_runtime.Keys.{pair_key, parse_pair_key, parse_state_key, state_key}
use evo_bot_runtime.Keys.RoundTrip.{IsInt64Pair, parse_pair_key-pair_key, parse_state_key-state_key}
use evo_bot_runtime.Keys.Injective.{of_attach, key_of-injective}
use evo_bot_runtime.Validation.{validate, IsAcceptable, validate-none_iff}
use evo_bot_runtime.Debounce
use evo_bot_runtime.Dispatch.Segment.{words, fields, segment_content}
use evo_bot_runtime.Dispatch.Segment.Laws.{Segmented, segment_content-Segmented}
use evo_bot_runtime.Dispatch.Media.{extract_media_urls, find_urls}
use evo_bot_runtime.Dispatch.Media.Laws.{
  extract_media_urls-media_links, media_matches, attachment_of, without,
}
use evo_bot_runtime.Dispatch.Media.Urls.{Found, find_urls-Found}
use evo_bot_runtime.Dispatch.Segment.MinSize.{segment_content-min_size}
use evo_bot_runtime.Ai.Wire.{A2aResponse}
use evo_bot_runtime.Ai.Response.{
  extract_response_text, first_full, all_texts, extract_response_text-first_full,
}
use evo_bot_runtime.Tests.Memory.{memory, no_cells}
use evo_bot_runtime.Tests.Turns.{settings, message}

abbrev pair : PairId
pair = record { contact_id = negsuc 11; conversation_id = pos 7 }

pair-IsInt64Pair : IsInt64Pair pair
pair-IsInt64Pair = record { contact = ground arith; conversation = ground arith }

parse_pair_key-pair_key_example : parse_pair_key (pair_key pair) ≡ pair
parse_pair_key-pair_key_example = parse_pair_key-pair_key pair pair-IsInt64Pair

parse_state_key-state_key_example : parse_state_key (state_key pair) ≡ some pair
parse_state_key-state_key_example = parse_state_key-state_key pair pair-IsInt64Pair

key_of-injective_example : (of_attach ≡ of_attach) × (pair ≡ pair)
key_of-injective_example =
    key_of-injective of_attach of_attach pair pair pair-IsInt64Pair pair-IsInt64Pair refl

validate-none_iff_example :
    (validate (message 5 (codes "hi")) ≡ none) ↔ IsAcceptable (message 5 (codes "hi"))
validate-none_iff_example = validate-none_iff (message 5 (codes "hi"))

no_text : (Debounce.get_buffer (memory false true) pair no_cells).1 ≡ ok []
unfolding Debounce.get_buffer Debounce.join
no_text = refl

abbrev long_text : Text
long_text = codes "one two unbreakable"

long_words : fields long_text ≢ []
unfolding fields words is_space
long_words = cc

segment_content-Segmented_example :
    Segmented 8 (fields long_text) (segment_content long_text (settings 0))
segment_content-Segmented_example = segment_content-Segmented long_text (settings 0) refl long_words

extract_media_urls-media_links_example : extract_media_urls (codes "see https://x.io/a.png.") ≡ (
  trim_space (
      without
        (media_matches (find_urls 0 (codes "see https://x.io/a.png.")))
        (codes "see https://x.io/a.png.")),
  map attachment_of (media_matches (find_urls 0 (codes "see https://x.io/a.png."))),
)
extract_media_urls-media_links_example =
    extract_media_urls-media_links (codes "see https://x.io/a.png.")

find_urls-Found_example :
    Found (codes "see https://x.io/a.png.") (find_urls 0 (codes "see https://x.io/a.png."))
find_urls-Found_example = find_urls-Found (codes "see https://x.io/a.png.")

segment_content-min_size_example :
    segment_content long_text (record (settings 0) { text_segmentation_min_size = pos 7 })
    ≡ segment_content long_text (settings 0)
segment_content-min_size_example = segment_content-min_size long_text (settings 0) (pos 7)

abbrev pub two_texts : A2aResponse
two_texts = record {
  result = some (record {
    artifacts =
        record { parts = record { kind = codes "text"; text = [] } ∷ [] }
        ∷ record { parts = record { kind = codes "text"; text = codes "hi" } ∷ [] }
        ∷ [];
    message = none;
  });
}

extract_response_text-first_full_example :
    extract_response_text two_texts ≡ first_full (all_texts two_texts)
extract_response_text-first_full_example = extract_response_text-first_full two_texts

-- every variable is "1"
abbrev pub ones : Environment
ones key = codes "1"
