-- ===== src/Dispatch/Media.antt =====
-- `extractMediaURLs` and `mediaFileType`.
pub mod Laws
pub mod Prefixes
pub mod Urls
use evo_bot_runtime.Prelude.{
  ℕ, zero, suc, ◌+◌, ◌-◌, Bool, true, false, ◌&&◌, ◌||◌, not, List, [], ◌∷◌, ◌++◌, Option, none,
  some, length, leb, ◌==◌, if◌then◌else◌, any,
}
use evo_bot_runtime.Prelude.Text.{
  Text, codes, text_eq, is_empty, trim_right, trim_space, take_while, strip_prefix, to_lower,
}

-- `postbackAttachment`
pub record PostbackAttachment : Type 0 where
  pub url : Text
  pub file_type : Text

-- the class `[^\s<>"']` of the regular expression
unfoldable pub is_url_char : ℕ → Bool
is_url_char c = not (
    c == 9
    || c == 10
    || c == 12
    || c == 13
    || c == 32
    || c == b'<'
    || c == b'>'
    || c == b'"'
    || c == 39)

abbrev or_else : Option Text → Option Text → Option Text
or_else (some t) o = some t
or_else none o = o

-- `https?://` in front: the text behind it
unfoldable pub after_scheme : Text → Option Text
after_scheme s = or_else (strip_prefix (codes "https://") s) (strip_prefix (codes "http://") s)

-- the match of `https?://[^\s<>"']+` that begins here
abbrev match_rest : Option Text → Text → Option Text
match_rest none s = none
match_rest (some []) s = none
match_rest (some (c ∷ t)) s = if is_url_char c then some (take_while is_url_char s) else none

unfoldable pub match_url : Text → Option Text
unfolding after_scheme is_url_char
match_url s = match_rest (after_scheme s) s

-- FindAllString, with the characters of the last match that are still to skip
unfoldable pub find_urls : ℕ → Text → List Text
find_urls skip [] = []
find_urls (suc skip) (c ∷ s) = find_urls skip s
find_urls zero (c ∷ s) = elim (match_url (c ∷ s)) [
  | none ↦ find_urls zero s
  | some url ↦ url ∷ find_urls (length url - 1) s
]

-- strings.Replace(s, old, "", 1) for an `old` that is not empty
unfoldable pub remove_first : Text → Text → Text
remove_first old [] = []
remove_first old (c ∷ s) = elim (strip_prefix old (c ∷ s)) [
  | some rest ↦ rest
  | none ↦ c ∷ remove_first old s
]

-- the text behind the last occurrence
unfoldable pub after_last : ℕ → Text → Option Text
after_last c [] = none
after_last c (d ∷ s) = elim (after_last c s) [
  | some t ↦ some t
  | none ↦ if d == c then some s else none
]

abbrev or_whole : Option Text → Text → Text
or_whole none s = s
or_whole (some t) s = t

abbrev image_exts : List Text
image_exts =
    codes "jpg"
    ∷ codes "jpeg"
    ∷ codes "png"
    ∷ codes "gif"
    ∷ codes "bmp"
    ∷ codes "webp"
    ∷ codes "svg"
    ∷ codes "tiff"
    ∷ []

abbrev audio_exts : List Text
audio_exts = codes "mp3" ∷ codes "wav" ∷ codes "ogg" ∷ codes "m4a" ∷ codes "aac" ∷ codes "flac" ∷ []

abbrev video_exts : List Text
video_exts =
    codes "mp4"
    ∷ codes "avi"
    ∷ codes "mov"
    ∷ codes "wmv"
    ∷ codes "flv"
    ∷ codes "mkv"
    ∷ codes "webm"
    ∷ []

abbrev file_exts : List Text
file_exts =
    codes "pdf"
    ∷ codes "doc"
    ∷ codes "docx"
    ∷ codes "xls"
    ∷ codes "xlsx"
    ∷ codes "ppt"
    ∷ codes "pptx"
    ∷ codes "txt"
    ∷ codes "rtf"
    ∷ codes "odt"
    ∷ []

-- `mediaExtToFileType[ext]`, empty for other extensions
unfoldable pub ext_file_type : Text → Text
ext_file_type ext =
    if any (text_eq ext) image_exts
    then codes "image"
    else if any (text_eq ext) audio_exts
    then codes "audio"
    else if any (text_eq ext) video_exts
    then codes "video"
    else if any (text_eq ext) file_exts
    then codes "file"
    else []

-- `path[:i]` at the first of "?#"
unfoldable pub url_path : Text → Text
url_path = take_while (λ c. not (c == b'?' || c == b'#'))

abbrev ext_type : Option Text → Text
ext_type none = []
ext_type (some ext) = ext_file_type (to_lower ext)

unfoldable pub media_file_type : Text → Text
unfolding url_path after_last ext_file_type
media_file_type url =
    let path = url_path url in ext_type (after_last b'.' (or_whole (after_last b'/' path) path))

-- the cutset `)].,!?;:`
abbrev is_trailing_punct : ℕ → Bool
is_trailing_punct c =
    c == b')'
    || c == b']'
    || c == b'.'
    || c == b','
    || c == b'!'
    || c == b'?'
    || c == b';'
    || c == b':'

abbrev pub trimmed : Text → Text
trimmed = trim_right is_trailing_punct

-- the loop over the matches: the residual text and the attachments
unfoldable pub extract_loop :
    List Text → Text → List PostbackAttachment → Text × List PostbackAttachment
extract_loop [] residual atts = (trim_space residual, atts)
extract_loop (raw ∷ urls) residual atts =
    let file_type = media_file_type (trimmed raw) in
    let skip = extract_loop urls residual atts in
    let pull =
      extract_loop urls (remove_first raw residual)
        (atts ++ (record { url = trimmed raw; file_type = file_type } ∷ [])) in
    if is_empty file_type then skip else pull

unfoldable pub extract_media_urls : Text → Text × List PostbackAttachment
unfolding find_urls extract_loop
extract_media_urls content = extract_loop (find_urls 0 content) content []
