-- ===== src/Keys/Categories.antt =====
-- Keys of different categories differ.
use Prim.Native.Char.{Char, code}
use text.Mathlib.TextLemmas.{append_assoc, append_cancel_left, cons-append, head-eq_of_cons-eq}
use sa_token_rust.Common.{◌≡◌, String, ◌≢◌, ap, sym, ◌∙◌, none, arith}
use sa_token_rust.Common.Text.{◌<>◌}
use sa_token_rust.Keys.{
  SaKeys, SaKeyLayout, login_type_login, build_global, global_key, three_segment, java_four_segment,
  or_login, oauth2_code, oauth2_token, oauth2_refresh, temp_token, temp_index,
}

-- Texts that differ right after a common prefix differ.
differs :
    (p a b x y : String) (c d : Char)
    → c ≢ d
    → (p <> String.◌∷◌ c a) <> x ≢ (p <> String.◌∷◌ d b) <> y
differs p a b x y c d ne e =
    let from_c =
      append_cancel_left p (String.◌∷◌ c a <> x) (String.◌∷◌ d b <> y)
        (sym (append_assoc p (String.◌∷◌ c a) x) ∙ e ∙ append_assoc p (String.◌∷◌ d b) y) in
    ne (head-eq_of_cons-eq (sym (cons-append c a x) ∙ from_c ∙ cons-append d b y))

global_key-differs :
    (layout : SaKeyLayout) (keys : SaKeys) (p a b x y : String) (c d : Char)
    → c ≢ d
    → global_key layout keys (p <> String.◌∷◌ c a) x none
      ≢ global_key layout keys (p <> String.◌∷◌ d b) y none
unfolding global_key or_login
global_key-differs three_segment keys p a b x y c d ne e =
    differs p a b (":" <> x) (":" <> y) c d ne (append_cancel_left keys.root _ _ e)
global_key-differs java_four_segment keys p a b x y c d ne e =
    differs p a b (":" <> x) (":" <> y) c d ne (
      append_cancel_left ":" _ _ (
        append_cancel_left login_type_login _ _
          (append_cancel_left ":" _ _ (append_cancel_left keys.root _ _ e))))

-- The key of a code is no key of an access token or of a refresh token.
pub oauth2_code-token : (keys : SaKeys) (x y : String) → oauth2_code keys x ≢ oauth2_token keys y
unfolding oauth2_code oauth2_token build_global
oauth2_code-token keys x y =
    global_key-differs keys.layout keys "oauth2:" "ode" "oken" x y "c" "t"
      (λ e. ground (arith, ap code e))

pub oauth2_code-refresh :
    (keys : SaKeys) (x y : String) → oauth2_code keys x ≢ oauth2_refresh keys y
unfolding oauth2_code oauth2_refresh build_global
oauth2_code-refresh keys x y =
    global_key-differs keys.layout keys "oauth2:" "ode" "efresh" x y "c" "r"
      (λ e. ground (arith, ap code e))

pub oauth2_token-refresh :
    (keys : SaKeys) (x y : String) → oauth2_token keys x ≢ oauth2_refresh keys y
unfolding oauth2_token oauth2_refresh build_global
oauth2_token-refresh keys x y =
    global_key-differs keys.layout keys "oauth2:" "oken" "efresh" x y "t" "r"
      (λ e. ground (arith, ap code e))

-- The category of a namespace, taken apart.
namespaced :
    (rest namespace : String) (c : Char)
    → ("temp-" <> String.◌∷◌ c rest) <> namespace ≡ "temp-" <> String.◌∷◌ c (rest <> namespace)
namespaced rest namespace c =
    append_assoc "temp-" (String.◌∷◌ c rest) namespace
    ∙ ap (λ x. "temp-" <> x) (cons-append c rest namespace)

pub temp_token-index :
    (keys : SaKeys) (n m x y : String) → temp_token keys n x ≢ temp_index keys m y
unfolding temp_token temp_index build_global
temp_token-index keys n m x y e =
    global_key-differs keys.layout keys "temp-" ("oken:" <> n) ("ndex:" <> m) x y "t" "i"
      (λ e. ground (arith, ap code e))
      (sym (ap (λ z. global_key keys.layout keys z x none) (namespaced "oken:" n "t"))
        ∙ e
        ∙ ap (λ z. global_key keys.layout keys z y none) (namespaced "ndex:" m "i"))
