-- ===== src/Prelude/Action.antt =====
-- Methods of an object that assign to its fields and may raise. What was written before a raise
-- stays written, so the state comes back beside the exception too.

pub mod Ensures

pub data Result (E A : Type 0) : Type 0 where
  return : A → Result E A
  raise : E → Result E A

abbrev pub Action : Type 0 → Type 0 → Type 0 → Type 0
Action S E A = S → Result E A × S

module _ {S E A : Type 0} where
  unfoldable pub pure : A → Action S E A
  pure a s = (return a, s)

  unfoldable pub throw : E → Action S E A
  throw e s = (raise e, s)

module _ {S E : Type 0} where
  unfoldable pub get : Action S E S
  get s = (return s, s)

  unfoldable pub modify : (S → S) → Action S E Unit
  modify f s = (return tt, f s)

module _ {S E A B : Type 0} where
  abbrev pub and_then : Result E A → (A → Action S E B) → Action S E B
  and_then (return a) f = f a
  and_then (raise e) f = throw e

  infixl 5 ◌>>=◌ ◌>>◌
  -- Opening this opens `pure`, `throw`, `get` and `modify` too.
  unfoldable pub ◌>>=◌ : Action S E A → (A → Action S E B) → Action S E B
  unfolding pure throw get modify
  ◌>>=◌ m f s = let (r, s') = m s in and_then r f s'

  abbrev pub ◌>>◌ : Action S E A → Action S E B → Action S E B
  m >> n = m >>= λ _. n
