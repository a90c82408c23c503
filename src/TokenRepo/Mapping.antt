-- ===== src/TokenRepo/Mapping.antt =====
-- The text of a token's identity is read back: sa-token-core/src/repository/token_repo.rs.
use text.Mathlib.TextLemmas.{nil-append, cons-append}
use sa_token_rust.Common.{
  String, ◌≡◌, ◌≢◌, refl, sym, ap, ◌∙◌, false, none, some, arith, Bool-cases, inl, inr, ◌==◌,
  eq_iff, if◌then◌else◌,
}
use sa_token_rust.Common.Text.{◌<>◌, has_char, is_empty}
use sa_token_rust.Keys.{login_type_default}
use sa_token_rust.Token.{is_kick_out_marker, is_replaced_marker}
use sa_token_rust.TokenRepo.{
  identity, token_id_sep, split_once, encode_token_id_value, parse_token_id_value,
}

separated : (lid : String) → token_id_sep <> lid ≡ String.◌∷◌ "\u{1}" lid
separated lid = cons-append "\u{1}" "" lid ∙ ap (λ s. String.◌∷◌ "\u{1}" s) (nil-append lid)

-- The first separator stands behind a login type that has none.
split_once-append :
    (lt lid : String)
    → has_char 1 lt ≡ false
    → split_once (lt <> token_id_sep <> lid) ≡ some (lt, lid)
unfolding split_once has_char
split_once-append String.[] lid h = rw (nil-append, separated lid) refl
split_once-append (String.◌∷◌ c lt) lid h =
    rw (cons-append, split_once) (ground (arith, split_once-append lt lid))

clash : {p : String × String} → none ≢ some p
clash h = ground arith

-- A text that can be split is no marker.
not_marker :
    (m raw : String) (p : String × String)
    → split_once m ≡ none
    → split_once raw ≡ some p
    → (raw == m) ≡ false
not_marker m raw p none_m some_raw = elim (Bool-cases (raw == m)) [
  | inl e ↦ absurd (clash (sym none_m ∙ sym (ap split_once ((eq_iff raw m).0 e)) ∙ some_raw))
  | inr e ↦ e
]

-- The identity of a token, a login type without the separator and any login id, is read back from
-- its text; an empty login type is read as the default one.
pub parse_token_id_value-encode_token_id_value :
    (lt lid : String)
    → has_char 1 lt ≡ false
    → parse_token_id_value (encode_token_id_value lt lid)
      ≡ identity (if is_empty lt then login_type_default else lt) lid
unfolding parse_token_id_value encode_token_id_value is_kick_out_marker is_replaced_marker
    split_once
parse_token_id_value-encode_token_id_value lt lid h =
    let parts = split_once-append lt lid h in
    rw (not_marker "-5" _ (lt, lid) refl parts)
      (rw (not_marker "-4" _ (lt, lid) refl parts) (rw parts))
