-- ===== src/Router/Paths.antt =====
-- How far a path pattern reaches.
use Prim.Native.Char.{Char}
use text.Mathlib.TextLemmas.{nil-append, cons-append, cons≢nil, append_cancel_right}
use sa_token_rust.Common.{String, ◌≡◌, ◌≢◌, refl, sym, ◌∙◌, true, false, some, ◌==◌, eq_iff, arith}
use sa_token_rust.Common.Text.{◌<>◌, is_empty, strip_prefix, strip_suffix}
use sa_token_rust.Router.{match_tree, match_path}

strip_prefix-append : (p s : String) → strip_prefix p (p <> s) ≡ some s
unfolding strip_prefix
strip_prefix-append String.[] s = rw nil-append
strip_prefix-append (String.◌∷◌ c p) s =
    rw (cons-append, strip_prefix) (ground (arith, strip_prefix-append p s))

abbrev pub subtree : String
subtree = "/**"

longer_than : (c : Char) (p : String) → String.◌∷◌ c (p <> subtree) ≢ subtree
longer_than c p e = cons≢nil (
    append_cancel_right (String.◌∷◌ c p) String.[] subtree
      (cons-append c p subtree ∙ e ∙ sym (nil-append subtree)))

longer : (c : Char) (p : String) → (String.◌∷◌ c (p <> subtree) == subtree) ≡ false
longer c p = ground (arith, eq_iff (String.◌∷◌ c (p <> subtree)) subtree, longer_than c p)

strip_suffix-append : (p : String) → strip_suffix subtree (p <> subtree) ≡ some p
unfolding strip_suffix is_empty
strip_suffix-append String.[] = refl
strip_suffix-append (String.◌∷◌ c p) =
    rw (cons-append, strip_suffix, strip_suffix-append p, longer c p) refl

-- A pattern `prefix/**` takes every path that starts with the text of the prefix, also one
-- whose next character is not a slash.
pub match_path-subtree :
    (prefix rest : String) → match_path (prefix <> rest) (prefix <> subtree) ≡ true
unfolding match_path match_tree
match_path-subtree prefix rest =
    rw (strip_suffix-append prefix, match_tree, strip_prefix-append prefix rest) (ground arith)
