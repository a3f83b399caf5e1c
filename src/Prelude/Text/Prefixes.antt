-- ===== src/Prelude/Text/Prefixes.antt =====
-- What is left of a text after a prefix of it.
use Prim.Native.String
use Prim.Native.String.{String}
use Prim.Native.Char.{Char, code}
use text.Mathlib.TextEquality.{Char-path}
use text.Mathlib.TextLemmas.{nil-append, cons-append}
use native.Mathlib.Omega.{arith}
use mathlib.Core.Path.{◌≡◌, refl, sym, ◌∙◌, ap, subst}
use mathlib.Core.Option.{Option, none, some}
use mathlib.Core.Bool.{Bool, true, false, ◌&&◌}
use aw_bot.Prelude.Tests.{if◌then◌else◌, leb, some_injective}
use aw_bot.Prelude.Text.{after_prefix}

code_of_leb : (c d : Char) → leb (code c) (code d) && leb (code d) (code c) ≡ true → c ≡ d
code_of_leb c d e = Char-path c d (ground arith)

if_some :
    {A : Type 0} (b : Bool) (o : Option A) (a : A)
    → (if b then o else none) ≡ some a
    → (b ≡ true) × (o ≡ some a)
if_some true o a e = (refl, e)
if_some false o a e = cc

pub append-after_prefix :
    (current text rest : String)
    → after_prefix current text ≡ some rest
    → String.◌++◌ current rest ≡ text
unfolding after_prefix
append-after_prefix String.[] text rest e = nil-append rest ∙ sym (some_injective text rest e)
append-after_prefix (String.◌∷◌ c current) String.[] rest e = cc
append-after_prefix (String.◌∷◌ c current) (String.◌∷◌ d text) rest e =
    let (same, found) =
      if_some (leb (code c) (code d) && leb (code d) (code c)) (after_prefix current text) rest e in
    subst (λ x. String.◌++◌ (String.◌∷◌ c current) rest ≡ String.◌∷◌ x text) (code_of_leb c d same)
      (cons-append c current rest ∙ ap (String.◌∷◌ c) (append-after_prefix current text rest found))
