-- ===== src/Keys/Collisions.antt =====
-- Accounts that share their keys, and accounts that never do.
use sa_token_rust.Common.{String, ◌≡◌, ◌≢◌, refl, sym, ap, ◌∙◌, true, false}
use sa_token_rust.Common.Text.{◌<>◌, has_char}
use sa_token_rust.Keys.{
  SaKeys, three_segment, is_default_login_type, escaped, build_account, account_key,
  login_type_default,
}
use sa_token_rust.Keys.Escape.{escaped_of_plain, has_char-escaped}

module _ (keys : SaKeys) (layout : keys.layout ≡ three_segment) (category : String) where
  key_of_default :
      (login_type login_id : String)
      → is_default_login_type login_type ≡ true
      → build_account keys category login_type login_id ≡ keys.root <> category <> ":" <> login_id
  unfolding build_account
  key_of_default login_type login_id h = rw (layout, account_key, h)

  key_of_other :
      (login_type login_id : String)
      → is_default_login_type login_type ≡ false
      → build_account keys category login_type login_id
        ≡ keys.root <> category <> ":" <> login_type <> ":" <> escaped login_id
  unfolding build_account
  key_of_other login_type login_id h = rw (layout, account_key, h)

  -- In the three-segment layout an account of a login type of its own and with an id free of colons
  -- has the same key as the account of the default login type whose id is the two joined by a colon.
  pub key-default_of_joined :
      (login_type login_id : String)
      → is_default_login_type login_type ≡ false
      → has_char b':' login_id ≡ false
      → build_account keys category login_type_default (login_type <> ":" <> login_id)
        ≡ build_account keys category login_type login_id
  key-default_of_joined login_type login_id other plain =
      key_of_default login_type_default _ (unfold is_default_login_type in refl)
      ∙ sym (key_of_other login_type login_id other ∙ rw (escaped_of_plain login_id plain))

  -- In the three-segment layout, for a login type of its own, an id and its escape have the same key;
  -- they are different ids if there is a colon to escape.
  pub key-escaped :
      (login_type login_id : String)
      → is_default_login_type login_type ≡ false
      → has_char b':' login_id ≡ true
      → (build_account keys category login_type (escaped login_id)
          ≡ build_account keys category login_type login_id)
        × (escaped login_id ≢ login_id)
  key-escaped login_type login_id other colon = (
    key_of_other login_type (escaped login_id) other
        ∙ rw (escaped_of_plain (escaped login_id) (has_char-escaped login_id))
            (sym (key_of_other login_type login_id other)),
    λ same. cc (has_char-escaped login_id, ap (has_char b':') same, colon),
  )
