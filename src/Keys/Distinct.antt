-- ===== src/Keys/Distinct.antt =====
-- In the three-segment layout the keys of different categories differ, whatever the ids:
-- sa-token-core/src/keys.rs.
use Prim.Native.Char.{code}
use text.Mathlib.TextLemmas.{append_assoc, append_cancel_left, cons-append}
use sa_token_rust.Common.{
  ℕ, zero, suc, ◌≡◌, ◌≢◌, String, refl, sym, ap, ◌∙◌, Option, none, some, arith, Bool-cases, inl,
  inr, Result, ok,
}
use sa_token_rust.Common.Text.{◌<>◌}
use sa_token_rust.Keys.{
  SaKeys, KeyError, three_segment, build_global, global_key, build_account, account_key, escaped,
  is_default_login_type, token_info, token_id_mapping, token_session, login_token_index,
  login_token,
}
use sa_token_rust.Keys.More.{session_by_ns, build_from_ns, from_ns}

-- The character at a place.
code_at : ℕ → String → Option ℕ
code_at n String.[] = none
code_at zero (String.◌∷◌ c s) = some (code c)
code_at (suc n) (String.◌∷◌ c s) = code_at n s

code_at-append : (n : ℕ) (p r : String) (c : ℕ) → code_at n p ≡ some c → code_at n (p <> r) ≡ some c
unfolding code_at
code_at-append n String.[] r c h = absurd (ground arith)
code_at-append zero (String.◌∷◌ a p) r c h = rw (cons-append, code_at) h
code_at-append (suc n) (String.◌∷◌ a p) r c h = rw (cons-append, code_at) (code_at-append n p r c h)

clash : {c d : ℕ} → c ≢ d → some c ≢ some d
clash ne h = ne (ground arith)

-- Keys whose categories, with their colon, differ at a place.
differ_at :
    (n : ℕ) (root a b x y : String) (c d : ℕ)
    → c ≢ d
    → code_at n (a <> ":") ≡ some c
    → code_at n (b <> ":") ≡ some d
    → root <> a <> ":" <> x ≢ root <> b <> ":" <> y
differ_at n root a b x y c d ne ha hb e =
    let same = append_cancel_left root (a <> ":" <> x) (b <> ":" <> y) e in
    let left : code_at n (a <> ":" <> x) ≡ some c =
      ap (code_at n) (sym (append_assoc a ":" x)) ∙ code_at-append n (a <> ":") x c ha in
    let right : code_at n (b <> ":" <> y) ≡ some d =
      ap (code_at n) (sym (append_assoc b ":" y)) ∙ code_at-append n (b <> ":") y d hb in
    clash ne (sym left ∙ ap (code_at n) same ∙ right)

ok_equal : {x y : String} → ◌≡◌ {A = Result KeyError String} (ok x) (ok y) → x ≡ y
ok_equal h = ground arith

module _ (keys : SaKeys) (layout : keys.layout ≡ three_segment) where
  -- The three-segment form of a global key and of an account's key.
  global_form :
      (category id : String)
      → build_global keys category id none ≡ keys.root <> category <> ":" <> id
  unfolding build_global
  global_form category id = rw (layout, global_key)

  account_form :
      (category lt lid : String)
      → (rest : String) × (build_account keys category lt lid
          ≡ keys.root <> category <> ":" <> rest)
  unfolding build_account
  account_form category lt lid = elim (Bool-cases (is_default_login_type lt)) [
    | inl e ↦ (lid, rw (layout, account_key, e))
    | inr e ↦ (lt <> ":" <> escaped lid, rw (layout, account_key, e))
  ]

  -- The key of a token's body is no key of its session, of its mapping, of a login index, of a login
  -- mapping, or of an account's session.
  pub token_info-token_session : (x y : String) → token_session keys y ≢ token_info keys x
  unfolding token_session token_info code_at
  token_info-token_session x y e =
      differ_at 5 keys.root "token-session" "token" y x b'-' b':' (λ h. omega (arith, h)) refl refl
        (sym (global_form "token-session" y) ∙ e ∙ global_form "token" x)

  pub token_info-token_id_mapping : (x y : String) → token_id_mapping keys y ≢ token_info keys x
  unfolding token_id_mapping token_info code_at
  token_info-token_id_mapping x y e =
      differ_at 5 keys.root "token-id" "token" y x b'-' b':' (λ h. omega (arith, h)) refl refl
        (sym (global_form "token-id" y) ∙ e ∙ global_form "token" x)

  pub token_info-login_token_index :
      (x lt lid : String) → login_token_index keys lt lid ≢ token_info keys x
  unfolding login_token_index token_info code_at
  token_info-login_token_index x lt lid e =
      let (rest, form) = account_form "login:tokens" lt lid in
      differ_at 0 keys.root "login:tokens" "token" rest x b'l' b't' (λ h. omega (arith, h)) refl
        refl (sym form ∙ e ∙ global_form "token" x)

  pub token_info-login_token : (x lt lid : String) → login_token keys lt lid ≢ token_info keys x
  unfolding login_token token_info code_at
  token_info-login_token x lt lid e =
      let (rest, form) = account_form "login:token" lt lid in
      differ_at 0 keys.root "login:token" "token" rest x b'l' b't' (λ h. omega (arith, h)) refl refl
        (sym form ∙ e ∙ global_form "token" x)

  pub session_by_ns-three :
      (n : String) → session_by_ns keys n ≡ ok (build_global keys "session" n none)
  unfolding session_by_ns build_from_ns
  session_by_ns-three n = rw (layout, from_ns)

  pub token_info-session : (x n k : String) → session_by_ns keys n ≡ ok k → k ≢ token_info keys x
  unfolding session_by_ns token_info build_from_ns code_at
  token_info-session x n k h e =
      differ_at 0 keys.root "session" "token" n x b's' b't' (λ h. omega (arith, h)) refl refl
        (sym (global_form "session" n)
          ∙ ok_equal (sym (session_by_ns-three n) ∙ h)
          ∙ e
          ∙ global_form "token" x)
