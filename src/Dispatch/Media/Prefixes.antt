-- ===== src/Dispatch/Media/Prefixes.antt =====
-- Prefixes of a text, and what is left of it.
use evo_bot_runtime.Prelude.{
  ℕ, zero, suc, Bool, true, [], ◌∷◌, ◌++◌, some, length, ◌≡◌, refl, ap, arith, inl, inr, All,
  Bool-cases,
}
use evo_bot_runtime.Prelude.Text.{Text, take_while, strip_prefix}

abbrev pub drop : ℕ → Text → Text
drop zero s = s
drop (suc n) [] = []
drop (suc n) (c ∷ s) = drop n s

pub strip_prefix-some : (p s t : Text) → strip_prefix p s ≡ some t → s ≡ p ++ t
unfolding strip_prefix
strip_prefix-some [] s t h = cc h
strip_prefix-some (c ∷ p) [] t h = cc h
strip_prefix-some (c ∷ p) (d ∷ s) t h = ground (arith, strip_prefix-some p s t)

pub strip_prefix-append : (p t : Text) → strip_prefix p (p ++ t) ≡ some t
unfolding strip_prefix
strip_prefix-append [] t = refl
strip_prefix-append (c ∷ p) t = ground (arith, strip_prefix-append p t)

module _ (p : ℕ → Bool) where
  pub take_while-All : (s : Text) → All (λ c. p c ≡ true) (take_while p s)
  unfolding take_while
  take_while-All [] = tt
  take_while-All (c ∷ s) = elim (Bool-cases (p c)) [
    | inl passes ↦ rw passes (passes, take_while-All s)
    | inr fails ↦ rw fails tt
  ]

  pub take_while-drop : (s : Text) → take_while p s ++ drop (length (take_while p s)) s ≡ s
  unfolding take_while
  take_while-drop [] = refl
  take_while-drop (c ∷ s) = elim (Bool-cases (p c)) [
    | inl passes ↦ rw passes (ap (λ (z : Text). c ∷ z) (take_while-drop s))
    | inr fails ↦ rw fails refl
  ]

  pub take_while-append :
      (s t : Text) → All (λ c. p c ≡ true) s → take_while p (s ++ t) ≡ s ++ take_while p t
  unfolding take_while
  take_while-append [] t h = refl
  take_while-append (c ∷ s) t (h, hs) = rw h (ap (λ (z : Text). c ∷ z) (take_while-append s t hs))
