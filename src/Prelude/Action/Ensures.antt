-- ===== src/Prelude/Action/Ensures.antt =====
-- Postconditions of actions: `Q` holds of a returned value and the state after it, and `W` holds of
-- the state after an exception. One rule for each way to build an action.
use aw_bot.Prelude.Action.{Result, return, raise, Action, pure, throw, get, and_then, ◌>>=◌}
use aw_bot.Prelude.Tests.{if◌then◌else◌}
use mathlib.Core.Path.{◌≡◌, refl}
use mathlib.Core.Bool.{Bool, true, false}

abbrev pub Post : {S E A : Type 0} → (A → S → Type 0) → (S → Type 0) → Result E A → S → Type 0
Post Q W (return a) s = Q a s
Post Q W (raise e) s = W s

pub record Ensures {S E A : Type 0} (W P : S → Type 0) (m : Action S E A) (Q : A → S → Type 0)
    : Type 0 where
  pub at : (s : S) → P s → Post Q W (m s).0 (m s).1

module _ {S E A : Type 0} where
  Post-mono :
      {Q Q' : A → S → Type 0} (W : S → Type 0) (r : Result E A) (s : S)
      → ((a : A) (s : S) → Q a s → Q' a s)
      → Post Q W r s
      → Post Q' W r s
  Post-mono W (return a) s stronger p = stronger a s p
  Post-mono W (raise e) s stronger p = p

module _ {S E A : Type 0} {W P : S → Type 0} where
  pub Ensures-pure :
      {Q : A → S → Type 0} (a : A) → ((s : S) → P s → Q a s) → Ensures {E = E} W P (pure a) Q
  unfolding pure
  Ensures-pure a h = record { at = h }

  pub Ensures-throw : {Q : A → S → Type 0} (e : E) → ((s : S) → P s → W s) → Ensures W P (throw e) Q
  unfolding throw
  Ensures-throw e h = record { at = h }

  pub Ensures-if :
      {Q : A → S → Type 0} (b : Bool) {m n : Action S E A}
      → (b ≡ true → Ensures W P m Q)
      → (b ≡ false → Ensures W P n Q)
      → Ensures W P (if b then m else n) Q
  Ensures-if true hm hn = hm refl
  Ensures-if false hm hn = hn refl

  -- A fact that the precondition gives may be used to prove the rest.
  pub Ensures-known :
      {Q : A → S → Type 0} {F : Type 0} {m : Action S E A}
      → ((s : S) → P s → F)
      → (F → Ensures W P m Q)
      → Ensures W P m Q
  Ensures-known given rest = record { at = λ s p. (rest (given s p)).at s p }

  pub Ensures-pre :
      {P' : S → Type 0} {Q : A → S → Type 0} {m : Action S E A}
      → ((s : S) → P s → P' s)
      → Ensures W P' m Q
      → Ensures W P m Q
  Ensures-pre weaker h = record { at = λ s p. h.at s (weaker s p) }

  pub Ensures-post :
      {Q Q' : A → S → Type 0} {m : Action S E A}
      → ((a : A) (s : S) → Q a s → Q' a s)
      → Ensures W P m Q
      → Ensures W P m Q'
  Ensures-post {m = m} stronger h = record {
    at = λ s p. Post-mono W (m s).0 (m s).1 stronger (h.at s p);
  }

module _ {S E A B : Type 0} where
  after :
      {Q : A → S → Type 0} {R : B → S → Type 0} (W : S → Type 0) (r : Result E A)
      (f : A → Action S E B) (s : S)
      → ((a : A) → Ensures W (Q a) (f a) R)
      → Post Q W r s
      → Post R W (and_then r f s).0 (and_then r f s).1
  unfolding throw
  after W (return a) f s rest p = (rest a).at s p
  after W (raise e) f s rest p = p

module _ {S E A B : Type 0} {W P : S → Type 0} where
  pub Ensures-bind :
      {Q : A → S → Type 0} {R : B → S → Type 0} {m : Action S E A} {f : A → Action S E B}
      → Ensures W P m Q
      → ((a : A) → Ensures W (Q a) (f a) R)
      → Ensures W P (m >>= f) R
  unfolding ◌>>=◌
  Ensures-bind {m = m} {f = f} first rest = record {
    at = λ s p. after W (m s).0 f (m s).1 rest (first.at s p);
  }

-- Reading the state and going on with what was read.
module _ {S E B : Type 0} {W P : S → Type 0} where
  pub Ensures-get :
      {R : B → S → Type 0} {f : S → Action S E B}
      → ((now : S) → P now → Ensures W (λ s. s ≡ now) (f now) R)
      → Ensures W P (get >>= f) R
  unfolding ◌>>=◌
  Ensures-get rest = record { at = λ s p. (rest s p).at s refl }
