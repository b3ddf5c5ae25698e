-- ===== src/Ai/Files/Laws.antt =====
-- The addresses that are contacted for the media of a turn.
use evo_bot_runtime.Prelude.{
  ℕ, ◌+◌, ◌-◌, min, Bool, true, List, [], ◌∷◌, ◌++◌, length, ◌==◌, ◌≡◌, refl, sym, ap, ◌∙◌, arith,
  inl, inr, All, All-append, Bool-cases, Result-cases, Option-cases, append_assoc, append-nil,
}
use evo_bot_runtime.Prelude.Text.{Text, is_empty}
use evo_bot_runtime.Ai.Wire.{Media, A2aRequest}
use evo_bot_runtime.Ai.Files.{
  max_attachment_bytes, max_attachments_total_bytes, Platform, allowed_media_hosts, check_media_url,
  check_redirect, resolve_mime_type, download_attachment, build_loop, build_file_parts,
}

-- The addresses that were contacted. A GET contacts its address and then only addresses that the
-- client's test of a redirect lets through.
pub record Contacts (f : Platform) : Type 0 where
  pub contacted : f.World → List Text
  pub budget_contacts : (w : f.World) → contacted (f.budget_done w).0 ≡ contacted w
  pub hops :
      (check : ℕ → Text → Bool) (url : Text) (limit : ℕ) (w : f.World)
      → (more : List Text) × (contacted (f.fetch check url limit w).0 ≡ contacted w ++ (url ∷ more))
        × All (λ u. (k : ℕ) × (check k u ≡ true)) more

module _ (f : Platform) (l : Contacts f) (hosts : List Text) where
  -- From `w` to `v` only addresses of authorized hosts were contacted.
  pub record OnlyAllowed (w v : f.World) : Type 0 where
    pub fetched : List Text
    pub contacts : l.contacted v ≡ l.contacted w ++ fetched
    pub allowed : All (λ u. check_media_url f hosts u ≡ true) fetched

  none_fetched : (w v : f.World) → l.contacted v ≡ l.contacted w → OnlyAllowed w v
  none_fetched w v e = record {
    fetched = [];
    contacts = e ∙ sym (append-nil (l.contacted w));
    allowed = tt;
  }

  OnlyAllowed-trans : (u v w : f.World) → OnlyAllowed u v → OnlyAllowed v w → OnlyAllowed u w
  OnlyAllowed-trans u v w a b = record {
    fetched = a.fetched ++ b.fetched;
    contacts =
        b.contacts
        ∙ ap (λ (z : List Text). z ++ b.fetched) a.contacts
        ∙ append_assoc (l.contacted u) a.fetched b.fetched;
    allowed = All-append _ a.fetched b.fetched a.allowed b.allowed;
  }

  redirects-allowed :
      (us : List Text)
      → All (λ u. (k : ℕ) × (check_redirect f hosts k u ≡ true)) us
      → All (λ u. check_media_url f hosts u ≡ true) us
  unfolding check_redirect
  redirects-allowed [] h = tt
  redirects-allowed (u ∷ us) ((k, h), hs) = (ground arith, redirects-allowed us hs)

  download-OnlyAllowed :
      (url : Text) (limit : ℕ) (w : f.World)
      → check_media_url f hosts url ≡ true
      → OnlyAllowed w (download_attachment f hosts url limit w).0
  unfolding download_attachment
  download-OnlyAllowed url limit w good =
      let (more, e, h) = l.hops (check_redirect f hosts) url (limit + 1) w in
      record { fetched = url ∷ more; contacts = e; allowed = (good, redirects-allowed more h) }

  build_loop-OnlyAllowed :
      (atts : List Media) (remaining : ℕ) (w : f.World)
      → OnlyAllowed w (build_loop f hosts atts remaining w).0
  unfolding build_loop
  build_loop-OnlyAllowed [] remaining w = none_fetched w w refl
  build_loop-OnlyAllowed (att ∷ atts) remaining w =
      let budget = f.budget_done w in
      let limit = min max_attachment_bytes remaining in
      let got = download_attachment f hosts att.url limit budget.0 in
      let still = l.budget_contacts w in
      elim (Bool-cases (is_empty att.url)) [
        | inl e ↦ rw e (build_loop-OnlyAllowed atts remaining w)
        | inr e ↦ elim (Bool-cases (check_media_url f hosts att.url)) [
          | inr bad ↦ rw (e, bad) (build_loop-OnlyAllowed atts remaining w)
          | inl good ↦ elim (Bool-cases budget.1) [
            | inl late ↦ rw (e, good, late) (none_fetched w budget.0 still)
            | inr early ↦ elim (Bool-cases (limit == 0)) [
              | inl full ↦ rw (e, good, early, full) (none_fetched w budget.0 still)
              | inr room ↦
                  let start =
                    OnlyAllowed-trans w budget.0 got.0 (none_fetched w budget.0 still)
                      (download-OnlyAllowed att.url limit budget.0 good) in
                  let on = λ (r : ℕ).
                    OnlyAllowed-trans w got.0 _ start (build_loop-OnlyAllowed atts r got.0) in
                  elim (Result-cases got.1) [
                    | inr (x, g) ↦ rw (e, good, early, room, g) (on remaining)
                    | inl ((bytes, type), g) ↦ elim (Option-cases (resolve_mime_type f att type)) [
                      | inl no_type ↦ rw (e, good, early, room, g, no_type) (on remaining)
                      | inr (mime, m) ↦
                          rw (e, good, early, room, g, m) (on (remaining - length bytes))
                    ]
                  ]
            ]
          ]
        ]
      ]

-- Whatever is answered and wherever it redirects to, every address that `buildFileParts` contacts,
-- the hops of the redirects included, is one that `checkMediaURL` lets through with the hosts of
-- MEDIA_HOST_ALLOWLIST.
pub build_file_parts-OnlyAllowed :
    (f : Platform) (l : Contacts f) (env : Text) (req : A2aRequest) (w : f.World)
    → OnlyAllowed f l (allowed_media_hosts f env) w (build_file_parts f env req w).0
unfolding build_file_parts
build_file_parts-OnlyAllowed f l env req w =
    build_loop-OnlyAllowed f l (allowed_media_hosts f env) req.attachments
      max_attachments_total_bytes w
