-- ===== src/Ai/Response.antt =====
-- `extractResponseText`: the first text of the artifacts, then of the message.
use evo_bot_runtime.Prelude.{
  List, [], ◌∷◌, ◌++◌, Option, none, some, if◌then◌else◌, ◌≡◌, refl, arith, append-nil,
  append_assoc, ap, sym, ◌∙◌,
}
use evo_bot_runtime.Prelude.Text.{Text, is_empty}
use evo_bot_runtime.Ai.Wire.{A2aPart, A2aArtifact, A2aMessage, A2aResult, A2aResponse}

-- the loop over the parts
unfoldable pub first_text : List A2aPart → Option Text
first_text [] = none
first_text (p ∷ ps) = let rest = first_text ps in if is_empty p.text then rest else some p.text

abbrev or_next : Option Text → Option Text → Option Text
or_next (some t) o = some t
or_next none o = o

-- the loop over the artifacts
unfoldable pub first_artifact_text : List A2aArtifact → Option Text
unfolding first_text
first_artifact_text [] = none
first_artifact_text (a ∷ rest) = or_next (first_text a.parts) (first_artifact_text rest)

abbrev message_text : Option A2aMessage → Option Text
message_text none = none
message_text (some m) = first_text m.parts

abbrev or_empty : Option Text → Text
or_empty none = []
or_empty (some t) = t

abbrev result_text : Option A2aResult → Text
result_text none = []
result_text (some r) = or_empty (or_next (first_artifact_text r.artifacts) (message_text r.message))

unfoldable pub extract_response_text : A2aResponse → Text
unfolding first_artifact_text
extract_response_text resp = result_text resp.result

-- All the texts of a response, in the order of preference.
abbrev part_texts : List A2aPart → List Text
part_texts [] = []
part_texts (p ∷ ps) = p.text ∷ part_texts ps

abbrev artifact_texts : List A2aArtifact → List Text
artifact_texts [] = []
artifact_texts (a ∷ rest) = part_texts a.parts ++ artifact_texts rest

abbrev message_texts : Option A2aMessage → List Text
message_texts none = []
message_texts (some m) = part_texts m.parts

abbrev pub all_texts : A2aResponse → List Text
all_texts resp = elim resp.result [
  | none ↦ []
  | some r ↦ artifact_texts r.artifacts ++ message_texts r.message
]

-- The first text that is not empty, or the empty text.
abbrev pub first_full : List Text → Text
first_full [] = []
first_full (t ∷ ts) = let rest = first_full ts in if is_empty t then rest else t

abbrev or_default : Option Text → Text → Text
or_default none d = d
or_default (some t) d = t

first_full-parts :
    (ps : List A2aPart) (ts : List Text)
    → first_full (part_texts ps ++ ts) ≡ or_default (first_text ps) (first_full ts)
unfolding first_text
first_full-parts [] ts = refl
first_full-parts (p ∷ ps) ts = ground (arith, first_full-parts ps ts)

or_default-or_next :
    (o n : Option Text) (d e : Text)
    → d ≡ or_default n e
    → or_default o d ≡ or_default (or_next o n) e
or_default-or_next none n d e h = h
or_default-or_next (some t) n d e h = refl

first_full-artifacts :
    (xs : List A2aArtifact) (ts : List Text)
    → first_full (artifact_texts xs ++ ts) ≡ or_default (first_artifact_text xs) (first_full ts)
unfolding first_artifact_text
first_full-artifacts [] ts = refl
first_full-artifacts (a ∷ rest) ts =
    ap first_full (append_assoc (part_texts a.parts) (artifact_texts rest) ts)
    ∙ first_full-parts a.parts (artifact_texts rest ++ ts)
    ∙ or_default-or_next (first_text a.parts) (first_artifact_text rest) _ _
        (first_full-artifacts rest ts)

message_texts_full :
    (m : Option A2aMessage) → first_full (message_texts m) ≡ or_empty (message_text m)
message_texts_full none = refl
message_texts_full (some m) =
    ap first_full (sym (append-nil (part_texts m.parts)))
    ∙ first_full-parts m.parts []
    ∙ same (first_text m.parts)
  where
    same : (o : Option Text) → or_default o [] ≡ or_empty o
    same none = refl
    same (some t) = refl

-- The answer is the first text that is not empty among those of the artifacts and then those of the
-- message, or the empty text if the response has none.
pub extract_response_text-first_full :
    (resp : A2aResponse) → extract_response_text resp ≡ first_full (all_texts resp)
unfolding extract_response_text
extract_response_text-first_full resp = by_result resp.result
  where
    or_empty-or_next : (o n : Option Text) → or_default o (or_empty n) ≡ or_empty (or_next o n)
    or_empty-or_next none n = refl
    or_empty-or_next (some t) n = refl

    by_result :
        (o : Option A2aResult)
        → result_text o
          ≡ first_full (elim o [
            | none ↦ []
            | some r ↦ artifact_texts r.artifacts ++ message_texts r.message
          ])
    by_result none = refl
    by_result (some r) = sym (
        first_full-artifacts r.artifacts (message_texts r.message)
        ∙ ap (or_default (first_artifact_text r.artifacts)) (message_texts_full r.message)
        ∙ or_empty-or_next (first_artifact_text r.artifacts) (message_text r.message))
