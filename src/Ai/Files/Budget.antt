-- ===== src/Ai/Files/Budget.antt =====
-- The bytes that a turn's media may take, and the types that they bear.
use evo_bot_runtime.Prelude.{
  ℕ, ◌+◌, ◌-◌, ◌≤◌, min, false, List, [], ◌∷◌, some, ok, err, length, ◌==◌, map, ◌≡◌, refl, ap,
  arith, inl, inr, All, Bool-cases, Result-cases, Option-cases,
}
use evo_bot_runtime.Prelude.Text.{Text, is_empty, text_eq}
use evo_bot_runtime.Ai.Wire.{Media, A2aRequest, JsonRpcPart}
use evo_bot_runtime.Ai.Files.{
  max_attachment_bytes, max_attachments_total_bytes, Fetched, unreachable, answered, Platform,
  allowed_media_hosts, check_media_url, check_redirect, media_type_of, mime_from_url,
  attachment_name, first_candidate, resolve_mime_type, download_attachment, Forward, part_of,
  build_loop, build_file_parts, read_reply, octet_stream,
}

abbrev pub total : (f : Platform) → List (Forward f) → ℕ
total f [] = 0
total f (x ∷ xs) = length x.bytes + total f xs

-- Parts that forward some files within a budget, each no longer than one file may be, under a type
-- that is known and not `application/octet-stream`.
pub record Fits (f : Platform) (budget : ℕ) (parts : List JsonRpcPart) : Type 0 where
  pub files : List (Forward f)
  pub forwarded : parts ≡ map (part_of f) files
  pub within : total f files ≤ budget
  pub each : All (λ x. length x.bytes ≤ max_attachment_bytes) files
  pub typed :
      All (λ x. (is_empty x.mime_type ≡ false) × (text_eq x.mime_type octet_stream ≡ false)) files

module _ (f : Platform) where
  no_parts : (budget : ℕ) → Fits f budget []
  no_parts budget = record {
    files = [];
    forwarded = refl;
    within = ground arith;
    each = tt;
    typed = tt;
  }

  candidate-typed :
      (ts : List Text) (t : Text)
      → first_candidate f ts ≡ some t
      → (is_empty t ≡ false) × (text_eq t octet_stream ≡ false)
  candidate-typed [] t h = ground arith
  candidate-typed (u ∷ us) t h = ground (arith, candidate-typed us t)

  resolved-typed :
      (att : Media) (type t : Text)
      → resolve_mime_type f att type ≡ some t
      → (is_empty t ≡ false) × (text_eq t octet_stream ≡ false)
  unfolding resolve_mime_type
  resolved-typed att type t h = ground (
    arith,
    candidate-typed
        (media_type_of f type
          ∷ media_type_of f att.content_type
          ∷ media_type_of f (mime_from_url f att.url)
          ∷ [])
        t,
  )

  read_reply-length :
      (limit : ℕ) (got : Fetched) (bytes : List ℕ) (type : Text)
      → read_reply f limit got ≡ ok (bytes, type)
      → length bytes ≤ limit
  read_reply-length limit (unreachable e) bytes type h = ground arith
  read_reply-length limit (answered status (err e) ct) bytes type h = ground arith
  read_reply-length limit (answered status (ok bs) ct) bytes type h = ground arith

  download-length :
      (hosts : List Text) (url : Text) (limit : ℕ) (w : f.World) (bytes : List ℕ) (type : Text)
      → (download_attachment f hosts url limit w).1 ≡ ok (bytes, type)
      → length bytes ≤ limit
  unfolding download_attachment
  download-length hosts url limit w bytes type h =
      read_reply-length limit (f.fetch (check_redirect f hosts) url (limit + 1) w).1 bytes type h

  add_part :
      (x : Forward f) (remaining : ℕ) (rest : List JsonRpcPart)
      → length x.bytes ≤ min max_attachment_bytes remaining
      → (is_empty x.mime_type ≡ false) × (text_eq x.mime_type octet_stream ≡ false)
      → Fits f (remaining - length x.bytes) rest
      → Fits f remaining (part_of f x ∷ rest)
  add_part x remaining rest short ty h = record {
    files = x ∷ h.files;
    forwarded = ap (λ (z : List JsonRpcPart). part_of f x ∷ z) h.forwarded;
    within = fits-within;
    each = (fits-each, h.each);
    typed = (ty, h.typed);
  }
    where
      fits-within : total f (x ∷ h.files) ≤ remaining
      fits-within = ground (arith, h.within)

      fits-each : length x.bytes ≤ max_attachment_bytes
      fits-each = ground arith

  build_loop-Fits :
      (hosts : List Text) (atts : List Media) (remaining : ℕ) (w : f.World)
      → Fits f remaining (build_loop f hosts atts remaining w).1
  unfolding build_loop
  build_loop-Fits hosts [] remaining w = no_parts remaining
  build_loop-Fits hosts (att ∷ atts) remaining w =
      let budget = f.budget_done w in
      let limit = min max_attachment_bytes remaining in
      let got = download_attachment f hosts att.url limit budget.0 in
      elim (Bool-cases (is_empty att.url)) [
        | inl e ↦ rw e (build_loop-Fits hosts atts remaining w)
        | inr e ↦ elim (Bool-cases (check_media_url f hosts att.url)) [
          | inr bad ↦ rw (e, bad) (build_loop-Fits hosts atts remaining w)
          | inl good ↦ elim (Bool-cases budget.1) [
            | inl late ↦ rw (e, good, late) (no_parts remaining)
            | inr early ↦ elim (Bool-cases (limit == 0)) [
              | inl full ↦ rw (e, good, early, full) (no_parts remaining)
              | inr room ↦ elim (Result-cases got.1) [
                | inr (x, g) ↦
                    rw (e, good, early, room, g) (build_loop-Fits hosts atts remaining got.0)
                | inl ((bytes, type), g) ↦ elim (Option-cases (resolve_mime_type f att type)) [
                  | inl no_type ↦
                      rw (e, good, early, room, g, no_type)
                        (build_loop-Fits hosts atts remaining got.0)
                  | inr (mime, m) ↦
                      rw (e, good, early, room, g, m)
                        (add_part
                          (record {
                            name = attachment_name f att.url;
                            mime_type = mime;
                            bytes = bytes;
                          })
                          remaining _ (download-length hosts att.url limit budget.0 bytes type g)
                          (resolved-typed att type mime m)
                          (build_loop-Fits hosts atts (remaining - length bytes) got.0))
                ]
              ]
            ]
          ]
        ]
      ]

-- The file parts of a call are downloaded files whose bytes together keep to the budget of the call
-- and each to that of one file, under a type that is neither empty nor `application/octet-stream`.
pub build_file_parts-Fits :
    (f : Platform) (env : Text) (req : A2aRequest) (w : f.World)
    → Fits f max_attachments_total_bytes (build_file_parts f env req w).1
unfolding build_file_parts
build_file_parts-Fits f env req w =
    build_loop-Fits f (allowed_media_hosts f env) req.attachments max_attachments_total_bytes w
