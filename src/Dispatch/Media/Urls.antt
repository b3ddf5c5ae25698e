-- ===== src/Dispatch/Media/Urls.antt =====
-- The links of a text, against the regular expression `https?://[^\s<>"']+`.
use evo_bot_runtime.Prelude.{
  ℕ, zero, suc, ◌-◌, true, false, List, [], ◌∷◌, ◌++◌, none, some, length, ◌≡◌, ◌≢◌, refl, ap, ◌∙◌,
  arith, ◌⊎◌, inl, inr, All, Bool-cases, Option-cases,
}
use evo_bot_runtime.Prelude.Text.{Text, codes, take_while, strip_prefix}
use evo_bot_runtime.Dispatch.Media.Prefixes.{
  drop, strip_prefix-some, strip_prefix-append, take_while-All, take_while-drop, take_while-append,
}
use evo_bot_runtime.Dispatch.Media.{is_url_char, after_scheme, match_url, find_urls}

abbrev IsUrlText : Text → Type 0
IsUrlText = All (λ c. is_url_char c ≡ true)

-- a word of the regular expression
abbrev pub Link : Text → Type 0
Link u =
    (c : ℕ) × (t : Text) × IsUrlText (c ∷ t)
    × ((u ≡ codes "https://" ++ (c ∷ t)) ⊎ (u ≡ codes "http://" ++ (c ∷ t)))

-- A word of the regular expression stands in front.
abbrev pub Begins : Text → Type 0
Begins s = (u : Text) × (rest : Text) × (s ≡ u ++ rest) × Link u

-- No character that could make a link in front longer.
abbrev pub Ends : Text → Type 0
Ends [] = Unit {0}
Ends (c ∷ s) = is_url_char c ≡ false

-- The matches that FindAllString is to report: from the left, each of them as long as it can be, and none
-- that overlaps another.
pub data Found : Text → List Text → Type 0 where
  at_end : Found [] []
  passed : (c : ℕ) {s : Text} {us : List Text} → ¬ Begins (c ∷ s) → Found s us → Found (c ∷ s) us
  matched :
      (u rest : Text) {us : List Text}
      → Link u
      → Ends rest
      → Found rest us
      → Found (u ++ rest) (u ∷ us)

abbrev matched_text : Text → Text
matched_text = take_while is_url_char

matched_text-Ends : (s : Text) → Ends (drop (length (matched_text s)) s)
unfolding take_while
matched_text-Ends [] = tt
matched_text-Ends (c ∷ s) = elim (Bool-cases (is_url_char c)) [
  | inl passes ↦ rw passes (matched_text-Ends s)
  | inr fails ↦ rw fails fails
]

scheme_chars : IsUrlText (codes "https://") × IsUrlText (codes "http://")
unfolding is_url_char
scheme_chars = (ground arith, ground arith)

after_scheme-some :
    (s t : Text)
    → after_scheme s ≡ some t
    → (s ≡ codes "https://" ++ t) ⊎ (s ≡ codes "http://" ++ t)
unfolding after_scheme
after_scheme-some s t h = elim (Option-cases (strip_prefix (codes "https://") s)) [
  | inr (u, e) ↦
      let same : u ≡ t = cc (rw e at h) in
      inl (strip_prefix-some (codes "https://") s t (rw (← same) e))
  | inl e ↦ inr (strip_prefix-some (codes "http://") s t (rw e at h))
]

after_scheme-secure : (t : Text) → after_scheme (codes "https://" ++ t) ≡ some t
unfolding after_scheme
after_scheme-secure t = rw (strip_prefix-append (codes "https://") t) refl

after_scheme-plain : (t : Text) → after_scheme (codes "http://" ++ t) ≡ some t
unfolding after_scheme strip_prefix
after_scheme-plain t = refl

-- the text of a match, with its scheme
scheme_matched :
    (s : Text) (c : ℕ) (t : Text)
    → is_url_char c ≡ true
    → (s ≡ codes "https://" ++ (c ∷ t)) ⊎ (s ≡ codes "http://" ++ (c ∷ t))
    → Link (matched_text s)
scheme_matched s c t passes h =
    let tail : matched_text (c ∷ t) ≡ c ∷ matched_text t =
      take_while-append is_url_char (c ∷ []) t (passes, tt) in
    (
      c,
      matched_text t,
      (passes, take_while-All is_url_char t),
      elim h [
        | inl e ↦ inl (
            ap matched_text e
            ∙ take_while-append is_url_char (codes "https://") (c ∷ t) scheme_chars.0
            ∙ ap (λ (z : Text). codes "https://" ++ z) tail)
        | inr e ↦ inr (
            ap matched_text e
            ∙ take_while-append is_url_char (codes "http://") (c ∷ t) scheme_chars.1
            ∙ ap (λ (z : Text). codes "http://" ++ z) tail)
      ],
    )

match_url-some : (s u : Text) → match_url s ≡ some u → (matched_text s ≡ u) × Link u
unfolding match_url
match_url-some s u h = elim (Option-cases (after_scheme s)) [
  | inl none_there ↦ absurd (cc (rw none_there at h))
  | inr ([], e) ↦ absurd (cc (rw e at h))
  | inr (c ∷ t, e) ↦ elim (Bool-cases (is_url_char c)) [
    | inr fails ↦ absurd (cc (rw (e, fails) at h))
    | inl passes ↦
        let same : matched_text s ≡ u = cc (rw (e, passes) at h) in
        (same, rw (← same) (scheme_matched s c t passes (after_scheme-some s (c ∷ t) e)))
  ]
]

match_url-link :
    (s : Text) (c : ℕ) (t : Text)
    → is_url_char c ≡ true
    → after_scheme s ≡ some (c ∷ t)
    → match_url s ≢ none
unfolding match_url
match_url-link s c t passes e h = cc (rw (e, passes) at h)

match_url-none : (s : Text) → match_url s ≡ none → ¬ Begins s
match_url-none s h (u, rest, whole, (c, t, (passes, chars), inl e)) =
    match_url-link s c (t ++ rest) passes
      (ap after_scheme (whole ∙ ap (λ (z : Text). z ++ rest) e)
        ∙ after_scheme-secure (c ∷ (t ++ rest)))
      h
match_url-none s h (u, rest, whole, (c, t, (passes, chars), inr e)) =
    match_url-link s c (t ++ rest) passes
      (ap after_scheme (whole ∙ ap (λ (z : Text). z ++ rest) e)
        ∙ after_scheme-plain (c ∷ (t ++ rest)))
      h

-- a match, and what is left to search behind it
match_url-rest :
    (c : ℕ) (s u : Text)
    → match_url (c ∷ s) ≡ some u
    → (u ++ drop (length u - 1) s ≡ c ∷ s) × Ends (drop (length u - 1) s)
match_url-rest c s u h =
    let (same, link) = match_url-some (c ∷ s) u h in
    let split : u ++ drop (length u) (c ∷ s) ≡ c ∷ s =
      rw (← same) (take_while-drop is_url_char (c ∷ s)) in
    let ends : Ends (drop (length u) (c ∷ s)) = rw (← same) (matched_text-Ends (c ∷ s)) in
    behind u link split ends
  where
    behind :
        (u : Text)
        → Link u
        → u ++ drop (length u) (c ∷ s) ≡ c ∷ s
        → Ends (drop (length u) (c ∷ s))
        → (u ++ drop (length u - 1) s ≡ c ∷ s) × Ends (drop (length u - 1) s)
    behind [] (d, t, chars, inl e) split ends = absurd (cc e)
    behind [] (d, t, chars, inr e) split ends = absurd (cc e)
    behind (d ∷ v) link split ends =
        let less : length (d ∷ v) - 1 ≡ length v = omega arith in rw less (split, ends)

find_urls-passed :
    (c : ℕ) (s : Text) → match_url (c ∷ s) ≡ none → find_urls 0 (c ∷ s) ≡ find_urls 0 s
unfolding find_urls
find_urls-passed c s h = ground arith

find_urls-matched :
    (c : ℕ) (s u : Text)
    → match_url (c ∷ s) ≡ some u
    → find_urls 0 (c ∷ s) ≡ u ∷ find_urls (length u - 1) s
unfolding find_urls
find_urls-matched c s u h = ground arith

find_urls-drop : (skip : ℕ) (s : Text) → Found (drop skip s) (find_urls skip s)
unfolding find_urls
find_urls-drop zero [] = at_end
find_urls-drop (suc skip) [] = at_end
find_urls-drop (suc skip) (c ∷ s) = find_urls-drop skip s
find_urls-drop zero (c ∷ s) = elim (Option-cases (match_url (c ∷ s))) [
  | inl fails ↦
      rw (find_urls-passed c s fails)
        (passed c (match_url-none (c ∷ s) fails) (find_urls-drop zero s))
  | inr (u, passes) ↦
      let (whole, ends) = match_url-rest c s u passes in
      let f : Found (u ++ drop (length u - 1) s) (u ∷ find_urls (length u - 1) s) =
        matched u (drop (length u - 1) s) (match_url-some (c ∷ s) u passes).1 ends
          (find_urls-drop (length u - 1) s) in
      rw (find_urls-matched c s u passes) (rw whole at f)
]

-- The links that are looked at for media are the matches of the regular expression: leftmost, each as
-- long as it can be, and without overlap.
pub find_urls-Found : (s : Text) → Found s (find_urls 0 s)
find_urls-Found s = find_urls-drop 0 s
