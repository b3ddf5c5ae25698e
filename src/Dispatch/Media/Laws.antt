-- ===== src/Dispatch/Media/Laws.antt =====
-- Which links of an answer become attachments.
use evo_bot_runtime.Prelude.{
  ℕ, Bool, true, false, not, ◌||◌, List, [], ◌∷◌, ◌++◌, ◌==◌, if◌then◌else◌, ◌≡◌, refl, ap, inl,
  inr, All, Bool-cases, append_assoc, append-nil, map,
}
use evo_bot_runtime.Prelude.Text.{Text, is_empty, take_while, trim_space}
use evo_bot_runtime.Dispatch.Media.{
  PostbackAttachment, find_urls, remove_first, media_file_type, trimmed, extract_loop,
  extract_media_urls,
}

take_while_stop :
    (p : ℕ → Bool) (s t : Text) (c : ℕ)
    → All (λ d. p d ≡ true) s
    → p c ≡ false
    → take_while p (s ++ (c ∷ t)) ≡ take_while p s
unfolding take_while
take_while_stop p [] t c h k = rw k
take_while_stop p (d ∷ s) t c (hd, hs) k =
    rw hd (ap (λ (x : Text). d ∷ x) (take_while_stop p s t c hs k))

abbrev is_path_char : ℕ → Bool
is_path_char c = not (c == b'?' || c == b'#')

-- The media type of a link is that of its path: a query or a fragment behind it changes nothing.
media_file_type-path :
    (path rest : Text) (c : ℕ)
    → All (λ d. is_path_char d ≡ true) path
    → is_path_char c ≡ false
    → media_file_type (path ++ (c ∷ rest)) ≡ media_file_type path
unfolding media_file_type
media_file_type-path path rest c h k = rw (take_while_stop is_path_char path rest c h k) refl

-- The matches that lead to media.
abbrev pub media_matches : List Text → List Text
media_matches [] = []
media_matches (raw ∷ urls) =
    let rest = media_matches urls in
    if is_empty (media_file_type (trimmed raw)) then rest else raw ∷ rest

-- The attachment of a match: without trailing punctuation, and with its type.
abbrev pub attachment_of : Text → PostbackAttachment
attachment_of raw = record { url = trimmed raw; file_type = media_file_type (trimmed raw) }

-- Each of the matches taken out of a text, where it first occurs.
abbrev pub without : List Text → Text → Text
without [] s = s
without (raw ∷ urls) s = without urls (remove_first raw s)

extract_loop-media :
    (urls : List Text) (residual : Text) (atts : List PostbackAttachment)
    → extract_loop urls residual atts ≡ (
      trim_space (without (media_matches urls) residual),
      atts ++ map attachment_of (media_matches urls),
    )
unfolding extract_loop
extract_loop-media [] residual atts = rw (append-nil atts) refl
extract_loop-media (raw ∷ urls) residual atts =
    elim (Bool-cases (is_empty (media_file_type (trimmed raw)))) [
      | inl text ↦ rw text (extract_loop-media urls residual atts)
      | inr media ↦ rw media (
          rw (← append_assoc atts (attachment_of raw ∷ []) (map attachment_of (media_matches urls)))
            (extract_loop-media urls (remove_first raw residual)
              (atts ++ (attachment_of raw ∷ []))))
    ]

-- The attachments of an answer are those of its matches that lead to media, in their order. Its text is
-- the answer with each of these matches, and no other, taken out where it first occurs, without the
-- space around it.
pub extract_media_urls-media_links :
    (content : Text)
    → let links = media_matches (find_urls 0 content) in
      extract_media_urls content ≡ (trim_space (without links content), map attachment_of links)
unfolding extract_media_urls
extract_media_urls-media_links content = extract_loop-media (find_urls 0 content) content []
