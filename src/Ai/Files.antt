-- ===== src/Ai/Files.antt =====
-- `buildFileParts` and what it calls: the media of a turn, downloaded and forwarded as file parts.
pub mod Laws
pub mod Budget
use evo_bot_runtime.Prelude.{
  ℕ, zero, suc, ◌+◌, ◌-◌, ◌*◌, ◌^◌, min, Bool, true, false, ◌&&◌, ◌||◌, not, List, [], ◌∷◌, ◌++◌,
  Option, none, some, Result, ok, err, length, ltb, leb, ◌==◌, any, if◌then◌else◌,
}
use evo_bot_runtime.Prelude.Text.{Text, codes, text_eq, is_empty, trim_space}
use evo_bot_runtime.Errors.{Err}
use evo_bot_runtime.Keys.{format}
use evo_bot_runtime.Ai.Wire.{Media, A2aRequest, JsonRpcPart, JsonRpcFile}

-- 15 MiB and 20 MiB
abbrev pub max_attachment_bytes : ℕ
max_attachment_bytes = 15 * 2 ^ 20

abbrev pub max_attachments_total_bytes : ℕ
max_attachments_total_bytes = 20 * 2 ^ 20

-- What net/url makes of an address.
pub record Url : Type 0 where
  pub scheme : Text
  pub hostname : Text
  pub path : Text

-- What a GET comes to: an error, or a status, the bytes that were read (or an error of the read), and
-- the Content-Type header.
pub data Fetched : Type 0 where
  unreachable : Err → Fetched
  answered : ℕ → Result Err (List ℕ) → Text → Fetched

-- The library code that the file calls, a parameter: net/url, mime, path, base64, strings.ToLower, the
-- budget's context, and the GET of an http.Client. The GET takes the client's test of a redirect
-- (the hops so far and the address) and the most bytes to read.
pub record Platform : Type 1 where
  pub World : Type 0
  pub parse_url : Text → Option Url
  pub parse_media_type : Text → Option Text
  pub type_by_extension : Text → Text
  pub path_ext : Text → Text
  pub path_base : Text → Text
  pub encode_base64 : List ℕ → Text
  pub to_lower : Text → Text
  pub budget_done : World → World × Bool
  pub fetch : (ℕ → Text → Bool) → Text → ℕ → World → World × Fetched

abbrev pub octet_stream : Text
octet_stream = codes "application/octet-stream"

unfoldable pub is_web_page : Text → Bool
is_web_page t = text_eq t (codes "text/html") || text_eq t (codes "application/xhtml+xml")

-- strings.Split(s, c), with the piece that is being read
unfoldable pub split_at : ℕ → Text → Text → List Text
split_at c [] piece = piece ∷ []
split_at c (d ∷ s) piece =
    let next = split_at c s [] in
    let more = split_at c s (piece ++ (d ∷ [])) in if d == c then piece ∷ next else more

abbrev first_piece : List Text → Text
first_piece [] = []
first_piece (p ∷ ps) = p

module _ (f : Platform) where
  abbrev keep_hosts : List Text → List Text
  keep_hosts [] = []
  keep_hosts (piece ∷ pieces) =
      let rest = keep_hosts pieces in
      let host = f.to_lower (trim_space piece) in if is_empty host then rest else host ∷ rest

  -- `allowedMediaHosts`, of the value of MEDIA_HOST_ALLOWLIST, which is empty if it is not set
  unfoldable pub allowed_media_hosts : Text → List Text
  unfolding split_at trim_space
  allowed_media_hosts env = keep_hosts (split_at b',' env [])

  abbrev url_allowed : List Text → Option Url → Bool
  url_allowed hosts none = false
  url_allowed hosts (some u) =
      let scheme = f.to_lower u.scheme in
      let host = f.to_lower u.hostname in
      (text_eq scheme (codes "http") || text_eq scheme (codes "https"))
      && not (is_empty host)
      && any (text_eq host) hosts

  -- `checkMediaURL` returns nil
  unfoldable pub check_media_url : List Text → Text → Bool
  check_media_url hosts url = url_allowed hosts (f.parse_url url)

  -- `CheckRedirect` of `mediaClient` returns nil
  unfoldable pub check_redirect : List Text → ℕ → Text → Bool
  unfolding check_media_url
  check_redirect hosts hops url = not (leb 10 hops) && check_media_url hosts url

  abbrev or_prefix : Text → Option Text → Text
  or_prefix content_type (some mt) = mt
  or_prefix content_type none =
      f.to_lower (trim_space (first_piece (split_at b';' content_type [])))

  unfoldable pub media_type_of : Text → Text
  unfolding split_at trim_space
  media_type_of content_type =
      if is_empty content_type then [] else or_prefix content_type (f.parse_media_type content_type)

  abbrev url_mime : Option Url → Text
  url_mime none = []
  url_mime (some u) = f.type_by_extension (f.path_ext u.path)

  unfoldable pub mime_from_url : Text → Text
  mime_from_url url = url_mime (f.parse_url url)

  abbrev base_name : Text → Text
  base_name base =
      if is_empty base || text_eq base (codes ".") || text_eq base (codes "/")
      then codes "file"
      else base

  abbrev url_name : Option Url → Text
  url_name none = codes "file"
  url_name (some u) = base_name (f.path_base u.path)

  unfoldable pub attachment_name : Text → Text
  attachment_name url = url_name (f.parse_url url)

  -- the loop over the candidates
  abbrev pub first_candidate : List Text → Option Text
  first_candidate [] = none
  first_candidate (t ∷ ts) =
      let rest = first_candidate ts in
      if not (is_empty t) && not (text_eq t octet_stream) then some t else rest

  unfoldable pub resolve_mime_type : Media → Text → Option Text
  unfolding is_web_page media_type_of mime_from_url
  resolve_mime_type att resp_content_type =
      let resp_type = media_type_of resp_content_type in
      let declared = media_type_of att.content_type in
      if is_web_page resp_type || is_web_page declared
      then none
      else first_candidate (resp_type ∷ declared ∷ media_type_of (mime_from_url att.url) ∷ [])

  abbrev pub read_body : ℕ → Text → Result Err (List ℕ) → Result Err (List ℕ × Text)
  read_body limit content_type (err e) = err (Err.wrapped (codes "read") e)
  read_body limit content_type (ok bytes) =
      if ltb limit (length bytes)
      then err (Err.foreign (codes "attachment exceeds the bytes still available in this call"))
      else ok (bytes, content_type)

  abbrev pub read_reply : ℕ → Fetched → Result Err (List ℕ × Text)
  read_reply limit (unreachable e) = err (Err.wrapped (codes "do") e)
  read_reply limit (answered status body content_type) =
      if status == 200
      then read_body limit content_type body
      else err (Err.foreign (codes "unexpected status"))

  -- `downloadAttachment` with the client of `mediaClient`: one byte more than the limit is read
  unfoldable pub download_attachment :
      List Text → Text → ℕ → f.World → f.World × Result Err (List ℕ × Text)
  unfolding check_redirect
  download_attachment hosts url limit w =
      let got = f.fetch (check_redirect hosts) url (limit + 1) w in (got.0, read_reply limit got.1)

  -- A file that is forwarded, and its part.
  pub record Forward : Type 0 where
    pub name : Text
    pub mime_type : Text
    pub bytes : List ℕ

  abbrev pub part_of : Forward → JsonRpcPart
  part_of x = record {
    kind = codes "file";
    text = [];
    file =
        some (record { name = x.name; mime_type = x.mime_type; bytes = f.encode_base64 x.bytes });
  }

  -- The rounds of the loop from here on: the downloads that are left and the bytes that are left.
  unfoldable pub build_loop : List Text → List Media → ℕ → f.World → f.World × List JsonRpcPart
  unfolding check_media_url resolve_mime_type attachment_name download_attachment
  build_loop hosts [] remaining w = (w, [])
  build_loop hosts (att ∷ atts) remaining w =
      let budget = f.budget_done w in
      let limit = min max_attachment_bytes remaining in
      let got = download_attachment hosts att.url limit budget.0 in
      let skip = build_loop hosts atts remaining w in
      let dropped = build_loop hosts atts remaining got.0 in
      if is_empty att.url
      then skip
      else if not (check_media_url hosts att.url)
      then skip
      else if budget.1
      then (budget.0, [])
      else if limit == 0
      then (budget.0, [])
      else elim got.1 [
        | err e ↦ dropped
        | ok (bytes, content_type) ↦ elim (resolve_mime_type att content_type) [
          | none ↦ dropped
          | some mime_type ↦
              let rest = build_loop hosts atts (remaining - length bytes) got.0 in
              (
                rest.0,
                part_of (record {
                  name = attachment_name att.url;
                  mime_type = mime_type;
                  bytes = bytes;
                })
                    ∷ rest.1,
              )
        ]
      ]

  -- `buildFileParts`; `env` is the value of MEDIA_HOST_ALLOWLIST
  unfoldable pub build_file_parts : Text → A2aRequest → f.World → f.World × List JsonRpcPart
  unfolding build_loop allowed_media_hosts
  build_file_parts env req w =
      build_loop (allowed_media_hosts env) req.attachments max_attachments_total_bytes w
