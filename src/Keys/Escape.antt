-- ===== src/Keys/Escape.antt =====
-- What the escaping of colons keeps apart.
use Prim.Native.Char.{code}
use text.Mathlib.TextLemmas.{nil-append, cons-append}
use sa_token_rust.Common.{String, ◌≡◌, refl, false, arith, eqb, Bool-cases, inl, inr}
use sa_token_rust.Common.Text.{has_char}
use sa_token_rust.Keys.{escaped}

-- A text without colons is its own escape.
pub escaped_of_plain : (s : String) → has_char b':' s ≡ false → escaped s ≡ s
unfolding escaped has_char
escaped_of_plain String.[] h = refl
escaped_of_plain (String.◌∷◌ c s) h = ground (arith, escaped_of_plain s)

-- An escaped text has no colon.
pub has_char-escaped : (s : String) → has_char b':' (escaped s) ≡ false
unfolding escaped has_char
has_char-escaped String.[] = refl
has_char-escaped (String.◌∷◌ c s) = elim (Bool-cases (eqb (code c) b':')) [
  | inl colon ↦ rw (colon, cons-append, cons-append, cons-append, nil-append) (has_char-escaped s)
  | inr plain ↦ rw (plain) (ground (arith, has_char-escaped s))
]
