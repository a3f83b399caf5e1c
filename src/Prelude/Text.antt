-- ===== src/Prelude/Text.antt =====
-- Python's text operations that the program calls: `+`, `str.join`, truth of a text, `==`.
pub mod Prefixes
use Prim.Native.String
use Prim.Native.String.{String}
use mathlib.Core.Path.{◌≡◌, refl}
use Prim.Native.Nat.{ℕ}
use Prim.Native.Char.{Char, code}
use aw_bot.Prelude.Tests.{if◌then◌else◌, leb, is_some}
use mathlib.Core.Option.{Option, none, some}
use mathlib.Core.Bool.{Bool, true, false, ◌&&◌, ◌||◌}
use mathlib.Core.Logic.{◌≢◌}
use text.Mathlib.Text.{◌==◌ as str_eq}
use text.Mathlib.TextEquality.{eq_iff}
use native.Mathlib.Omega.{arith}
use mathlib.Core.List.{List, [], ◌∷◌}

-- A text is true in a test when it is not empty.
abbrev pub truthy : String → Bool
truthy String.[] = false
truthy (String.◌∷◌ c s) = true

-- `sep.join(items)`
unfoldable pub join : String → List String → String
join sep [] = ""
join sep (x ∷ []) = x
join sep (x ∷ y ∷ rest) = String.◌++◌ x (String.◌++◌ sep (join sep (y ∷ rest)))

join_lines : join "\n" ("a" ∷ "b" ∷ []) ≡ "a\nb"
unfolding join
join_lines = refl

pub eq_of_str_eq : (a b : String) → str_eq a b ≡ true → a ≡ b
eq_of_str_eq a b e = ground (arith, eq_iff a b)

pub str_eq_of_ne : (a b : String) → a ≢ b → str_eq a b ≡ false
str_eq_of_ne a b ne = ground (arith, eq_iff a b)

pub ne_of_str_eq : (a b : String) → str_eq a b ≡ false → a ≢ b
ne_of_str_eq a b e = ground (arith, eq_iff a b)

pub empty_of_not_truthy : (a : String) → truthy a ≡ false → a ≡ ""
empty_of_not_truthy String.[] e = refl
empty_of_not_truthy (String.◌∷◌ c s) e = cc

-- The characters for which `str.isspace` holds, by their code points.
abbrev pub is_space_code : ℕ → Bool
is_space_code n =
    (leb 9 n && leb n 13)
    || (leb 28 n && leb n 32)
    || (leb 133 n && leb n 133)
    || (leb 160 n && leb n 160)
    || (leb 5760 n && leb n 5760)
    || (leb 8192 n && leb n 8202)
    || (leb 8232 n && leb n 8233)
    || (leb 8239 n && leb n 8239)
    || (leb 8287 n && leb n 8287)
    || (leb 12288 n && leb n 12288)

abbrev pub is_space : Char → Bool
is_space c = is_space_code (code c)

unfoldable pub lstrip : String → String
lstrip String.[] = ""
lstrip (String.◌∷◌ c s) = let rest = lstrip s in if is_space c then rest else String.◌∷◌ c s

abbrev pub unless_empty : Bool → Char → String → String
unless_empty space c String.[] = if space then "" else String.◌∷◌ c ""
unless_empty space c (String.◌∷◌ d s) = String.◌∷◌ c (String.◌∷◌ d s)

unfoldable pub rstrip : String → String
rstrip String.[] = ""
rstrip (String.◌∷◌ c s) = unless_empty (is_space c) c (rstrip s)

-- `text.strip()`
unfoldable pub strip : String → String
strip text = rstrip (lstrip text)

-- `text.removeprefix(prefix)` where `text.startswith(prefix)`
unfoldable pub after_prefix : String → String → Option String
after_prefix String.[] text = some text
after_prefix (String.◌∷◌ c prefix) String.[] = none
after_prefix (String.◌∷◌ c prefix) (String.◌∷◌ d text) =
    let rest = after_prefix prefix text in
    if leb (code c) (code d) && leb (code d) (code c) then rest else none

-- `part in text`
unfoldable pub contains : String → String → Bool
contains part String.[] = is_some (after_prefix part "")
contains part (String.◌∷◌ c text) =
    let rest = contains part text in is_some (after_prefix part (String.◌∷◌ c text)) || rest

stripped : strip " \n/new " ≡ "/new"
unfolding strip lstrip rstrip
stripped = refl

prefixed : after_prefix "/cd " "/cd ~/x" ≡ some "~/x"
unfolding after_prefix
prefixed = refl

contained : contains "b/" "a/b/c" ≡ true
unfolding contains after_prefix
contained = refl
