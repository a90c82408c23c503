-- ===== src/OAuth2/Codes.antt =====
-- Authorization codes.
use sa_token_rust.Common.{ℕ, String, Option, List, not, ◌&&◌, ◌||◌, if◌then◌else◌, is_some, ltb}
use sa_token_rust.Common.Text.{◌<>◌}
use sa_token_rust.Error.{
  oauth2_code_not_found, token_expired, oauth2_redirect_uri_mismatch, oauth2_invalid_scope,
  oauth2_pkce_required, oauth2_pkce_required_for_public_client,
}
use sa_token_rust.Storage.{SaStorage}
use sa_token_rust.Keys.{oauth2_code}
use sa_token_rust.Dao.{
  Action, pure, throw, with_now, lift, ok_or, add_seconds, ◌>>=◌, ◌>>◌, take_string, set_object,
}
use sa_token_rust.OAuth2.{OAuth2Manager, PkceChallenge, AuthorizationCode, Crypto, Codecs, ttl_of}
use sa_token_rust.OAuth2.Clients.{get_client, validate_redirect_uri, validate_scope}

-- `uuid` is the text that is drawn.
unfoldable pub generate_authorization_code :
    OAuth2Manager
    → String
    → String
    → String
    → String
    → List String
    → Option PkceChallenge
    → Option String
    → ℕ
    → AuthorizationCode
unfolding add_seconds
generate_authorization_code self uuid client_id user_id redirect_uri scope pkce state now = record {
  code = "code_" <> uuid;
  client_id = client_id;
  user_id = user_id;
  redirect_uri = redirect_uri;
  scope = scope;
  created_at = now;
  expires_at = add_seconds now self.code_ttl;
  pkce = pkce;
  state = state;
}

module _ (st : SaStorage) (codecs : Codecs) (crypto : Crypto) (self : OAuth2Manager) where
  abbrev pub code_key : String → String
  code_key code = oauth2_code self.dao.keys code

  unfoldable pub store_authorization_code : AuthorizationCode → Action st.State (Unit {0})
  unfolding ttl_of
  store_authorization_code auth_code =
      set_object st codecs.code (code_key auth_code.code) auth_code (ttl_of self.code_ttl)

  -- The test on a code that was read.
  unfoldable pub unexpired : AuthorizationCode → Action st.State AuthorizationCode
  unexpired auth_code =
      with_now λ now. if ltb auth_code.expires_at now then throw token_expired else pure auth_code

  unfoldable pub consume_authorization_code : String → Action st.State AuthorizationCode
  unfolding unexpired
  consume_authorization_code code = do
    found ← take_string st (code_key code)
    raw ← ok_or oauth2_code_not_found found
    auth_code ← lift (codecs.code.decode raw)
    unexpired auth_code

  unfoldable pub issue_authorization_code :
      String
      → String
      → String
      → String
      → List String
      → Option PkceChallenge
      → Option String
      → Action st.State AuthorizationCode
  unfolding get_client validate_redirect_uri validate_scope generate_authorization_code
      store_authorization_code
  issue_authorization_code uuid client_id user_id redirect_uri scope pkce state = with_now λ now. do
    client ← get_client st codecs crypto self client_id
    if not (validate_redirect_uri client redirect_uri)
        then throw oauth2_redirect_uri_mismatch
        else if not (validate_scope client scope)
        then throw oauth2_invalid_scope
        else if (client.public_client || self.require_pkce) && not (is_some pkce)
        then throw (
            if client.public_client
            then oauth2_pkce_required_for_public_client
            else oauth2_pkce_required)
        else let code =
            generate_authorization_code self uuid client_id user_id redirect_uri scope pkce state
              now in
          (store_authorization_code code >> pure code)
