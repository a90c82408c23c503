-- ===== src/OAuth2/Tokens.antt =====
-- Access and refresh tokens.
use sa_token_rust.Common.{
  ℕ, String, Bool, true, false, Option, none, some, List, not, ◌||◌, ◌==◌, if◌then◌else◌, is_some,
  ltb, ok, err,
}
use sa_token_rust.Common.Text.{◌<>◌}
use sa_token_rust.Error.{
  SaTokenResult, oauth2_invalid_credentials, oauth2_client_id_mismatch,
  oauth2_redirect_uri_mismatch, oauth2_pkce_required, oauth2_pkce_required_for_public_client,
  oauth2_access_token_not_found, oauth2_refresh_token_not_found, token_expired,
}
use sa_token_rust.Storage.{SaStorage}
use sa_token_rust.Keys.{oauth2_token, oauth2_refresh}
use sa_token_rust.Dao.{
  Action, pure, throw, with_now, lift, ok_or, try, handle, add_seconds, ◌>>=◌, ◌>>◌, take_string,
  set_string, get_object, set_object, delete,
}
use sa_token_rust.OAuth2.{
  OAuth2Client, OAuth2Manager, CodeChallengeMethod, s256, plain, PkceChallenge, AuthorizationCode,
  AccessToken, OAuth2TokenInfo, OAuth2RefreshRecord, Crypto, Codecs, ttl_of,
}
use sa_token_rust.OAuth2.Pkce.{verify}
use sa_token_rust.OAuth2.Clients.{get_client, verify_client}
use sa_token_rust.OAuth2.Codes.{consume_authorization_code}

module _ (st : SaStorage) (codecs : Codecs) (crypto : Crypto) (self : OAuth2Manager) where
  abbrev pub token_key : String → String
  token_key token = oauth2_token self.dao.keys token

  abbrev pub refresh_key : String → String
  refresh_key token = oauth2_refresh self.dao.keys token

  -- `at_uuid` and `rt_uuid` are the texts that are drawn.
  unfoldable pub token_info_of :
      String → String → String → String → List String → ℕ → OAuth2TokenInfo
  unfolding add_seconds
  token_info_of at_uuid rt_uuid client_id user_id scope now = record {
    access_token = "at_" <> at_uuid;
    client_id = client_id;
    user_id = user_id;
    scope = scope;
    created_at = now;
    expires_at = add_seconds now self.token_ttl;
    refresh_token = some ("rt_" <> rt_uuid);
  }

  unfoldable pub refresh_record_of :
      String → String → String → List String → ℕ → OAuth2RefreshRecord
  refresh_record_of at_uuid client_id user_id scope now = record {
    user_id = user_id;
    client_id = client_id;
    scope = scope;
    access_token = "at_" <> at_uuid;
    created_at = now;
  }

  unfoldable pub access_token_of : String → String → List String → AccessToken
  access_token_of at_uuid rt_uuid scope = record {
    access_token = "at_" <> at_uuid;
    token_type = "Bearer";
    expires_in = self.token_ttl;
    refresh_token = some ("rt_" <> rt_uuid);
    scope = scope;
  }

  unfoldable pub generate_access_token :
      String → String → String → String → List String → Action st.State AccessToken
  unfolding token_info_of refresh_record_of access_token_of ttl_of
  generate_access_token at_uuid rt_uuid client_id user_id scope = with_now λ now. do
    set_object st codecs.token (token_key ("at_" <> at_uuid))
        (token_info_of at_uuid rt_uuid client_id user_id scope now) (ttl_of self.token_ttl)
    set_object st codecs.refresh (refresh_key ("rt_" <> rt_uuid))
        (refresh_record_of at_uuid client_id user_id scope now) (ttl_of self.refresh_token_ttl)
    pure (access_token_of at_uuid rt_uuid scope)

  -- `pkce.verify(verifier)`, with the verifier that the client sent.
  unfoldable pub verify_sent : PkceChallenge → Option String → SaTokenResult (Unit {0})
  unfolding verify
  verify_sent pkce none = err oauth2_pkce_required
  verify_sent pkce (some verifier) = verify crypto pkce verifier

  unfoldable pub is_s256 : CodeChallengeMethod → Bool
  is_s256 s256 = true
  is_s256 plain = false

  unfoldable pub public_pkce : Option PkceChallenge → Option String → SaTokenResult (Unit {0})
  public_pkce none verifier = err oauth2_pkce_required_for_public_client
  public_pkce (some pkce) verifier =
      if not (is_s256 pkce.code_challenge_method)
      then err oauth2_pkce_required_for_public_client
      else verify_sent pkce verifier

  unfoldable pub confidential_pkce : Option PkceChallenge → Option String → SaTokenResult (Unit {0})
  confidential_pkce none verifier = err oauth2_pkce_required
  confidential_pkce (some pkce) verifier = verify_sent pkce verifier

  -- The proof key that an exchange needs.
  unfoldable pub check_pkce :
      OAuth2Client → AuthorizationCode → Option String → SaTokenResult (Unit {0})
  unfolding public_pkce confidential_pkce verify_sent is_s256
  check_pkce client auth_code verifier =
      if client.public_client
      then public_pkce auth_code.pkce verifier
      else if self.require_pkce || is_some auth_code.pkce
      then confidential_pkce auth_code.pkce verifier
      else ok tt

  -- `!client.public_client && !self.verify_client(..)`.
  unfoldable pub authenticate : OAuth2Client → String → String → Action st.State (Unit {0})
  unfolding verify_client
  authenticate client client_id client_secret =
      if client.public_client
      then pure tt
      else verify_client st codecs crypto self client_id client_secret >>= λ good.
          if good then pure tt else throw oauth2_invalid_credentials

  -- The comparison of the code with the request.
  unfoldable pub same_request : AuthorizationCode → String → String → SaTokenResult (Unit {0})
  same_request auth_code client_id redirect_uri =
      if not (auth_code.client_id == client_id)
      then err oauth2_client_id_mismatch
      else if not (auth_code.redirect_uri == redirect_uri)
      then err oauth2_redirect_uri_mismatch
      else ok tt

  unfoldable pub exchange_code_for_token :
      String
      → String
      → String
      → String
      → String
      → String
      → Option String
      → Action st.State AccessToken
  unfolding authenticate same_request check_pkce generate_access_token consume_authorization_code
      get_client
  exchange_code_for_token at_uuid rt_uuid code client_id client_secret redirect_uri verifier = do
    client ← get_client st codecs crypto self client_id
    authenticate client client_id client_secret
    auth_code ← consume_authorization_code st codecs crypto self code
    lift (same_request auth_code client_id redirect_uri)
    lift (check_pkce client auth_code verifier)
    generate_access_token at_uuid rt_uuid auth_code.client_id auth_code.user_id auth_code.scope

  unfoldable pub verify_access_token : String → Action st.State OAuth2TokenInfo
  verify_access_token access_token = with_now λ now. do
    found ← get_object st codecs.token (token_key access_token)
    info ← ok_or oauth2_access_token_not_found found
    if ltb info.expires_at now
        then try (delete st (token_key access_token)) (throw token_expired)
        else pure info

  -- The end of a refresh, for a record of the client's.
  unfoldable pub renew :
      String → String → String → String → OAuth2RefreshRecord → Action st.State AccessToken
  unfolding generate_access_token ttl_of
  renew at_uuid rt_uuid rt_key raw old =
      handle (generate_access_token at_uuid rt_uuid old.client_id old.user_id old.scope)
        (λ new_token. delete st (token_key old.access_token) >> pure new_token)
        (λ e. set_string st rt_key raw (ttl_of self.refresh_token_ttl) >> throw e)

  unfoldable pub refresh_access_token :
      String → String → String → String → String → Action st.State AccessToken
  unfolding verify_client renew ttl_of
  refresh_access_token at_uuid rt_uuid refresh_token client_id client_secret = do
    good ← verify_client st codecs crypto self client_id client_secret
    if good then pure tt else throw oauth2_invalid_credentials
    found ← take_string st (refresh_key refresh_token)
    raw ← ok_or oauth2_refresh_token_not_found found
    old ← lift (codecs.refresh.decode raw)
    if not (old.client_id == client_id)
        then try (set_string st (refresh_key refresh_token) raw (ttl_of self.refresh_token_ttl))
            (throw oauth2_client_id_mismatch)
        else renew at_uuid rt_uuid (refresh_key refresh_token) raw old

  unfoldable pub revoke_token : String → Action st.State (Unit {0})
  revoke_token token = do delete st (token_key token); delete st (refresh_key token)
