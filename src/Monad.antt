-- ===== src/Monad.antt =====
-- Calls that change a state and may return an error, in the order in which the source makes them.
use evo_bot_runtime.Prelude.{Result, ok, err}
use evo_bot_runtime.Prelude.Text.{Text}
use evo_bot_runtime.Errors.{Err}

abbrev pub M : Type 0 → Type 0 → Type 0
M S A = S → S × Result Err A

module _ {S : Type 0} where
  abbrev pub pure : {A : Type 0} → A → M S A
  pure a s = (s, ok a)

  abbrev pub fail : {A : Type 0} → Err → M S A
  fail e s = (s, err e)

  abbrev after : {A B : Type 0} → S × Result Err A → (A → M S B) → S × Result Err B
  after (s, ok a) f = f a s
  after (s, err e) f = (s, err e)

  infixl 5 ◌>>=◌ ◌>>◌
  abbrev pub ◌>>=◌ : {A B : Type 0} → M S A → (A → M S B) → M S B
  ◌>>=◌ m f s = after (m s) f

  abbrev pub ◌>>◌ : {B : Type 0} → M S (Unit {0}) → M S B → M S B
  ◌>>◌ m k s = after (m s) (λ _. k)

  abbrev rescue : {A : Type 0} → S × Result Err A → (Err → M S A) → S × Result Err A
  rescue (s, ok a) f = (s, ok a)
  rescue (s, err e) f = f e s

  -- `if err != nil { … }`
  abbrev pub handle : {A : Type 0} → M S A → (Err → M S A) → M S A
  handle m f s = rescue (m s) f

  -- `fmt.Errorf("label: %w", err)`
  abbrev pub context : {A : Type 0} → Text → M S A → M S A
  context label m = handle m (λ e. fail (Err.wrapped label e))

  -- A change of the state that cannot fail.
  abbrev pub modify : (S → S) → M S (Unit {0})
  modify f s = (f s, ok tt)
