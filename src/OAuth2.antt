-- ===== src/OAuth2.antt =====
-- OAuth2: sa-token-core/src/oauth2/mod.rs, the data and the registration of clients.
--
-- Parameters: `uuid` texts are arguments of what draws them; the codecs are `serde`'s; `Crypto`
-- holds SHA-256 with URL-safe Base64, and Argon2; `verify_password` is the trait
-- `PasswordVerifier`.
pub mod Pkce
pub mod Clients
pub mod Codes
pub mod Tokens
pub mod Grants
pub mod IssueLaws
pub mod CodeLaws
pub mod Authenticated
pub mod ExchangeLaws
pub mod RefreshLaws
pub mod RefreshOnce
use sa_token_rust.Common.{ℕ, ◌-◌, ◌^◌, String, Bool, true, false, Option, none, some, List, [], ◌∷◌}
use sa_token_rust.Common.Int.{ℤ, pos, negsuc}
use sa_token_rust.Error.{SaTokenResult}
use sa_token_rust.Dao.{SaTokenDao, Codec, from_secs}

-- `n as u64`.
unfoldable pub as_u64 : ℤ → ℕ
as_u64 (pos n) = n
as_u64 (negsuc n) = 2 ^ 64 - n - 1

pub data CodeChallengeMethod : Type 0 where
  s256 plain : CodeChallengeMethod

pub record PkceChallenge : Type 0 where
  pub code_challenge : String
  pub code_challenge_method : CodeChallengeMethod

pub record OAuth2Client : Type 0 where
  pub client_id : String
  pub client_secret_hash : String
  pub client_secret : String
  pub redirect_uris : List String
  pub grant_types : List String
  pub scope : List String
  pub public_client : Bool

-- What serde writes of an `OAuth2Client`: it skips the plain secret.
pub record StoredClient : Type 0 where
  pub client_id : String
  pub client_secret_hash : String
  pub redirect_uris : List String
  pub grant_types : List String
  pub scope : List String
  pub public_client : Bool

abbrev pub stored : OAuth2Client → StoredClient
stored client = record {
  client_id = client.client_id;
  client_secret_hash = client.client_secret_hash;
  redirect_uris = client.redirect_uris;
  grant_types = client.grant_types;
  scope = client.scope;
  public_client = client.public_client;
}

-- The plain secret that serde fills in is the default of `String`.
abbrev pub restored : StoredClient → OAuth2Client
restored client = record {
  client_id = client.client_id;
  client_secret_hash = client.client_secret_hash;
  client_secret = "";
  redirect_uris = client.redirect_uris;
  grant_types = client.grant_types;
  scope = client.scope;
  public_client = client.public_client;
}

pub record AuthorizationCode : Type 0 where
  pub code : String
  pub client_id : String
  pub user_id : String
  pub redirect_uri : String
  pub scope : List String
  pub created_at : ℕ
  pub expires_at : ℕ
  pub pkce : Option PkceChallenge
  pub state : Option String

pub record AccessToken : Type 0 where
  pub access_token : String
  pub token_type : String
  pub expires_in : ℤ
  pub refresh_token : Option String
  pub scope : List String

pub record OAuth2TokenInfo : Type 0 where
  pub access_token : String
  pub client_id : String
  pub user_id : String
  pub scope : List String
  pub created_at : ℕ
  pub expires_at : ℕ
  pub refresh_token : Option String

pub record OAuth2RefreshRecord : Type 0 where
  pub user_id : String
  pub client_id : String
  pub scope : List String
  pub access_token : String
  pub created_at : ℕ

pub record TokenIssueRequest : Type 0 where
  pub grant_type : String
  pub client_id : String
  pub client_secret : String
  pub code : Option String
  pub redirect_uri : Option String
  pub refresh_token : Option String
  pub username : Option String
  pub password : Option String
  pub scope : List String
  pub code_verifier : Option String

pub record OAuth2Manager : Type 0 where
  pub dao : SaTokenDao
  pub code_ttl : ℤ
  pub token_ttl : ℤ
  pub refresh_token_ttl : ℤ
  pub require_pkce : Bool
  pub allow_legacy_plain_secret : Bool
  pub password_verifier : Option (String → String → SaTokenResult (Unit {0}))

unfoldable pub from_dao : SaTokenDao → OAuth2Manager
from_dao dao = record {
  dao = dao;
  code_ttl = pos 600;
  token_ttl = pos 3600;
  refresh_token_ttl = pos 2592000;
  require_pkce = false;
  allow_legacy_plain_secret = false;
  password_verifier = none;
}

-- The libraries that the server calls: `challenge` is SHA-256 and then URL-safe Base64 without
-- padding; `hash_password` is Argon2 with a salt that is drawn; `verify_password` is its check.
pub record Crypto : Type 0 where
  pub challenge : String → String
  pub hash_password : String → SaTokenResult String
  pub verify_password : String → String → SaTokenResult Bool

-- The codecs of what the manager stores.
pub record Codecs : Type 0 where
  pub client : Codec StoredClient
  pub code : Codec AuthorizationCode
  pub token : Codec OAuth2TokenInfo
  pub refresh : Codec OAuth2RefreshRecord

-- `Some(Duration::from_secs(n as u64))`.
unfoldable pub ttl_of : ℤ → Option ℕ
unfolding as_u64 from_secs
ttl_of n = some (from_secs (as_u64 n))
