-- ===== src/OAuth2/Clients.antt =====
-- Clients: registration, lookup, authentication, and the checks on what a client may ask.
use sa_token_rust.Common.{String, Bool, true, false, none, List, ◌||◌, if◌then◌else◌, all, contains}
use sa_token_rust.Common.Text.{is_empty, has_char}
use sa_token_rust.Error.{oauth2_client_not_found}
use sa_token_rust.Storage.{SaStorage}
use sa_token_rust.Keys.{oauth2_client}
use sa_token_rust.Memory.Shard.{bytes}
use sa_token_rust.HttpBasic.{ct_eq}
use sa_token_rust.Dao.{Action, pure, lift, ok_or, ◌>>=◌, get_object, set_object}
use sa_token_rust.OAuth2.{OAuth2Client, stored, restored, OAuth2Manager, Crypto, Codecs}
use sa_token_rust.OAuth2.Pkce.{hash_plain_secret, is_hashed}

unfoldable pub validate_redirect_uri : OAuth2Client → String → Bool
unfolding is_empty has_char
validate_redirect_uri client redirect_uri =
    if is_empty redirect_uri || has_char b'#' redirect_uri
    then false
    else contains client.redirect_uris redirect_uri

unfoldable pub validate_scope : OAuth2Client → List String → Bool
validate_scope client requested_scope = all (λ s. contains client.scope s) requested_scope

unfoldable pub supports_grant_type : OAuth2Client → String → Bool
supports_grant_type client grant_type = contains client.grant_types grant_type

module _ (st : SaStorage) (codecs : Codecs) (crypto : Crypto) (self : OAuth2Manager) where
  -- The hash that is stored for a client.
  secret_hash_of : Bool → String → Action st.State String
  unfolding hash_plain_secret
  secret_hash_of true plain_secret = pure ""
  secret_hash_of false plain_secret = lift (hash_plain_secret crypto plain_secret)

  unfoldable pub register_client_with_secret : OAuth2Client → String → Action st.State (Unit {0})
  unfolding secret_hash_of
  register_client_with_secret client plain_secret = do
    hash ← secret_hash_of client.public_client plain_secret
    set_object st codecs.client (oauth2_client self.dao.keys client.client_id)
        (stored (record client { client_secret_hash = hash; client_secret = "" })) none

  unfoldable pub register_client : OAuth2Client → Action st.State (Unit {0})
  unfolding register_client_with_secret
  register_client client = register_client_with_secret client client.client_secret

  unfoldable pub get_client : String → Action st.State OAuth2Client
  get_client client_id = do
    found ← get_object st codecs.client (oauth2_client self.dao.keys client_id)
    client ← ok_or oauth2_client_not_found found
    pure (restored client)

  -- The tests of `verify_client` on the client.
  unfoldable pub check_secret : OAuth2Client → String → Action st.State Bool
  unfolding is_hashed ct_eq bytes
  check_secret client client_secret =
      if client.public_client
      then pure true
      else if is_hashed client.client_secret_hash
      then lift (crypto.verify_password client_secret client.client_secret_hash)
      else if self.allow_legacy_plain_secret
      then pure (ct_eq (bytes client_secret) (bytes client.client_secret_hash))
      else pure false

  unfoldable pub verify_client : String → String → Action st.State Bool
  unfolding get_client check_secret
  verify_client client_id client_secret = do
    client ← get_client client_id
    check_secret client client_secret
