-- ===== src/Common/Text.antt =====
-- The operations of `str` that the program uses, over the characters of a text.
use Prim.Native.Char.{Char, code}
use Prim.Native.String
use Prim.Native.String.{String, [], ◌∷◌}
use Prim.Native.Nat.{ℕ}
use mathlib.Core.Bool.{Bool, true, false, ◌&&◌, ◌||◌}
use mathlib.Core.Option.{Option, none, some}
use mathlib.Core.List.{List}
use text.Mathlib.Text.{◌==◌}
use sa_token_rust.Common.Tests.{eqb, leb, if◌then◌else◌, is_some}

infixr 65 ◌<>◌
abbrev pub ◌<>◌ : String → String → String
s <> t = String.◌++◌ s t

unfoldable pub is_empty : String → Bool
is_empty [] = true
is_empty (c ∷ s) = false

-- `contains(char)`, by the character's code.
unfoldable pub has_char : ℕ → String → Bool
has_char x [] = false
has_char x (c ∷ s) = eqb (code c) x || has_char x s

-- Adds a character to the first of the parts.
unfoldable pub push_first : Char → List String → List String
push_first c List.[] = List.◌∷◌ (c ∷ []) List.[]
push_first c (List.◌∷◌ p ps) = List.◌∷◌ (c ∷ p) ps

-- `split(char)`: one part more than there are separators.
unfoldable pub split : ℕ → String → List String
unfolding push_first
split x [] = List.◌∷◌ [] List.[]
split x (c ∷ s) =
    let rest = split x s in if eqb (code c) x then List.◌∷◌ [] rest else push_first c rest

unfoldable pub strip_prefix : String → String → Option String
strip_prefix [] s = some s
strip_prefix (p ∷ ps) [] = none
strip_prefix (p ∷ ps) (c ∷ s) = if eqb (code p) (code c) then strip_prefix ps s else none

-- `char::is_whitespace` for ASCII, and the wider spaces below U+3000 that Unicode lists.
unfoldable pub is_whitespace : ℕ → Bool
is_whitespace c =
    (leb 9 c && leb c 13)
    || eqb c 32
    || eqb c 0x85
    || eqb c 0xa0
    || eqb c 0x1680
    || (leb 0x2000 c && leb c 0x200a)
    || eqb c 0x2028
    || eqb c 0x2029
    || eqb c 0x202f
    || eqb c 0x205f
    || eqb c 0x3000

-- Drops leading characters that satisfy the test.
unfoldable pub trim_start : (ℕ → Bool) → String → String
trim_start p [] = []
trim_start p (c ∷ s) = let rest = trim_start p s in if p (code c) then rest else c ∷ s

-- Drops trailing ones: a character goes if nothing is left behind it and it satisfies the test.
unfoldable pub trim_end : (ℕ → Bool) → String → String
unfolding is_empty
trim_end p [] = []
trim_end p (c ∷ s) = let rest = trim_end p s in if is_empty rest && p (code c) then [] else c ∷ rest

unfoldable pub trim : String → String
unfolding trim_start trim_end is_whitespace
trim s = trim_end is_whitespace (trim_start is_whitespace s)

-- What stands before a suffix.
unfoldable pub strip_suffix : String → String → Option String
unfolding is_empty
strip_suffix x [] = if is_empty x then some [] else none
strip_suffix x (c ∷ s) =
    let rest = strip_suffix x s in
    if (c ∷ s) == x then some [] else elim rest [ none ↦ none | some r ↦ some (c ∷ r) ]

abbrev pub starts_with : String → String → Bool
starts_with s p = is_some (strip_prefix p s)

abbrev pub ends_with : String → String → Bool
ends_with s x = is_some (strip_suffix x s)
