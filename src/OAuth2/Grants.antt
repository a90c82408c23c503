-- ===== src/OAuth2/Grants.antt =====
-- The other grants, and the token endpoint's choice of a grant.
use sa_token_rust.Common.{String, Bool, true, false, List, ◌==◌, if◌then◌else◌, not}
use sa_token_rust.Common.Text.{◌<>◌}
use sa_token_rust.Error.{
  SaTokenError, config_error, oauth2_unsupported_grant, oauth2_invalid_credentials,
  oauth2_invalid_scope, oauth2_code_not_found, oauth2_redirect_uri_mismatch,
  oauth2_refresh_token_not_found,
}
use sa_token_rust.Storage.{SaStorage}
use sa_token_rust.Dao.{Action, pure, throw, lift, ok_or, ◌>>=◌, ◌>>◌}
use sa_token_rust.OAuth2.{OAuth2Manager, AccessToken, TokenIssueRequest, Crypto, Codecs}
use sa_token_rust.OAuth2.Clients.{get_client, verify_client, supports_grant_type, validate_scope}
use sa_token_rust.OAuth2.Tokens.{
  generate_access_token, exchange_code_for_token, refresh_access_token,
}

module _ (st : SaStorage) (codecs : Codecs) (crypto : Crypto) (self : OAuth2Manager)
    (at_uuid rt_uuid : String) where
  -- `if !test { return Err(e) }`.
  abbrev pub ensure : SaTokenError → Bool → Action st.State (Unit {0})
  ensure e true = pure tt
  ensure e false = throw e

  unfoldable pub password_grant :
      String → String → String → String → List String → Action st.State AccessToken
  unfolding supports_grant_type validate_scope
  password_grant client_id client_secret username password scope = do
    verifier ← ok_or (config_error "password verifier is not configured") self.password_verifier
    client ← get_client st codecs crypto self client_id
    ensure oauth2_unsupported_grant (supports_grant_type client "password")
    good ← verify_client st codecs crypto self client_id client_secret
    ensure oauth2_invalid_credentials good
    ensure oauth2_invalid_scope (validate_scope client scope)
    lift (verifier username password)
    generate_access_token st codecs crypto self at_uuid rt_uuid client_id username scope

  unfoldable pub client_credentials_grant :
      String → String → List String → Action st.State AccessToken
  unfolding supports_grant_type validate_scope
  client_credentials_grant client_id client_secret scope = do
    client ← get_client st codecs crypto self client_id
    ensure oauth2_unsupported_grant (supports_grant_type client "client_credentials")
    ensure oauth2_invalid_credentials (not client.public_client)
    good ← verify_client st codecs crypto self client_id client_secret
    ensure oauth2_invalid_credentials good
    ensure oauth2_invalid_scope (validate_scope client scope)
    generate_access_token st codecs crypto self at_uuid rt_uuid client_id ("client:" <> client_id)
        scope

  unfoldable pub issue_token : TokenIssueRequest → Action st.State AccessToken
  unfolding password_grant client_credentials_grant
  issue_token req =
      if req.grant_type == "authorization_code"
      then (do
        code ← ok_or oauth2_code_not_found req.code
        redirect_uri ← ok_or oauth2_redirect_uri_mismatch req.redirect_uri
        exchange_code_for_token st codecs crypto self at_uuid rt_uuid code req.client_id
            req.client_secret redirect_uri req.code_verifier)
      else if req.grant_type == "refresh_token"
      then (do
        refresh ← ok_or oauth2_refresh_token_not_found req.refresh_token
        refresh_access_token st codecs crypto self at_uuid rt_uuid refresh req.client_id
            req.client_secret)
      else if req.grant_type == "password"
      then (do
        username ← ok_or oauth2_invalid_credentials req.username
        password ← ok_or oauth2_invalid_credentials req.password
        password_grant req.client_id req.client_secret username password req.scope)
      else if req.grant_type == "client_credentials"
      then client_credentials_grant req.client_id req.client_secret req.scope
      else throw oauth2_unsupported_grant
