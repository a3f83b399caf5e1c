-- ===== src/Prelude/Fallible.antt =====
-- Functions that may raise and keep no state: a result is returned or an exception is raised.
use mathlib.Core.Path.{◌≡◌, refl}
use mathlib.Core.Bool.{Bool, true, false}
use mathlib.Core.Option.{Option, none, some}
use aw_bot.Prelude.Tests.{if◌then◌else◌}
use aw_bot.Prelude.Action.{Result, return, raise}

module _ {E A B : Type 0} where
  infixl 5 ◌>>=◌ ◌>>◌
  abbrev pub ◌>>=◌ : Result E A → (A → Result E B) → Result E B
  return a >>= f = f a
  raise e >>= f = raise e

  abbrev pub ◌>>◌ : Result E A → Result E B → Result E B
  m >> n = m >>= λ _. n

abbrev pub Found : {A : Type 0} → (A → Type 0) → Option A → Type 0
Found P none = Unit
Found P (some a) = P a

abbrev pub OnReturn : {E A : Type 0} → (A → Type 0) → Result E A → Type 0
OnReturn P (return a) = P a
OnReturn P (raise e) = Unit

-- What is returned, if anything, has a property.
pub record Returns {E A : Type 0} (P : A → Type 0) (m : Result E A) : Type 0 where
  pub holds : OnReturn P m

module _ {E A B : Type 0} where
  pub Returns-bind :
      {Q : B → Type 0} {f : A → Result E B} (m : Result E A)
      → ((a : A) → m ≡ return a → Returns Q (f a))
      → Returns Q (m >>= f)
  Returns-bind (return a) h = h a refl
  Returns-bind (raise e) h = record { holds = tt }

  pub Returns-then :
      {P : A → Type 0} {Q : B → Type 0} {f : A → Result E B} (m : Result E A)
      → Returns P m
      → ((a : A) → P a → Returns Q (f a))
      → Returns Q (m >>= f)
  Returns-then (return a) r h = h a r.holds
  Returns-then (raise e) r h = record { holds = tt }

module _ {E A : Type 0} where
  pub Returns-return : {P : A → Type 0} (a : A) → P a → Returns {E = E} P (return a)
  Returns-return a h = record { holds = h }

  pub Returns-raise : {P : A → Type 0} (e : E) → Returns P (raise e)
  Returns-raise e = record { holds = tt }

  pub Returns-if :
      {P : A → Type 0} {x y : Result E A} (b : Bool)
      → Returns P x
      → Returns P y
      → Returns P (if b then x else y)
  Returns-if true hx hy = hx
  Returns-if false hx hy = hy

-- The rules for what is returned, one for each way to build a function that may raise.
pub ruleset returns = (Returns-bind, Returns-if, Returns-return, Returns-raise)
