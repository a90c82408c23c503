-- ===== src/OAuth2/RefreshOnce.antt =====
-- A refresh token is worth one refresh.
use sa_token_rust.Common.{ℕ, ◌≤◌, String, ◌≡◌, ◌≢◌, sym, ◌∙◌, none, some, ok, arith}
use sa_token_rust.Common.Text.{◌<>◌}
use sa_token_rust.Storage.{SaStorage, StorageLaws}
use sa_token_rust.OAuth2.{OAuth2Manager, AccessToken, Crypto, Codecs}
use sa_token_rust.OAuth2.Tokens.{refresh_key, refresh_access_token}
use sa_token_rust.OAuth2.RefreshLaws.{refresh_access_token-rotates}

module _ (st : SaStorage) (laws : StorageLaws st) (codecs : Codecs) (crypto : Crypto)
    (self : OAuth2Manager) (at_uuid rt_uuid at_uuid' rt_uuid' : String) where
  -- A refresh token that was used for a refresh is refused from then on, whatever client asks, as
  -- long as neither of the two draws gives its text again.
  pub refresh_access_token-once :
      (refresh_token id secret id' secret' : String) (now t : ℕ) (s : st.State)
      (token token' : AccessToken)
      → now ≤ t
      → refresh_key st codecs crypto self ("rt_" <> rt_uuid)
        ≢ refresh_key st codecs crypto self refresh_token
      → refresh_key st codecs crypto self ("rt_" <> rt_uuid')
        ≢ refresh_key st codecs crypto self refresh_token
      → (refresh_access_token st codecs crypto self at_uuid rt_uuid refresh_token id secret now s).0
        ≡ ok token
      → (refresh_access_token st codecs crypto self at_uuid' rt_uuid' refresh_token id' secret' t
          (refresh_access_token st codecs crypto self at_uuid rt_uuid refresh_token id secret now
            s).1).0
        ≢ ok token'
  refresh_access_token-once refresh_token id secret id' secret' now t s token token' le new new' h
        h' =
      let (old, raw, there, read, same, gone, dropped) =
        refresh_access_token-rotates st laws codecs crypto self at_uuid rt_uuid refresh_token id
          secret now s token new h in
      let (old', raw', there', read', same', gone', dropped') =
        refresh_access_token-rotates st laws codecs crypto self at_uuid' rt_uuid' refresh_token id'
          secret' t _ token' new' h' in
      none_some (sym (gone t le) ∙ there')
    where
      none_some : {x : String} → none ≢ some x
      none_some e = ground arith
