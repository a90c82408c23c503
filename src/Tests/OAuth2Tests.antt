-- ===== src/Tests/OAuth2Tests.antt =====
-- Witnesses on OAuth2: one client, one code, one refresh token.
use sa_token_rust.Common.{
  ℕ, ◌≤◌, String, ◌≡◌, ◌≢◌, refl, Bool, true, false, Option, none, some, List, [], ◌∷◌, ok, err,
  ◌==◌, ◌&&◌, eq_iff, eqb, not, arith, option_eq, option_eq_iff,
}
use sa_token_rust.Common.Int.{pos}
use sa_token_rust.Common.Text.{◌<>◌}
use sa_token_rust.Memory.{MemoryStorage, new, set}
use sa_token_rust.Dao.{Codec}
use sa_token_rust.OAuth2.{
  PkceChallenge, s256, OAuth2Manager, OAuth2Client, AuthorizationCode, AccessToken, OAuth2TokenInfo,
  OAuth2RefreshRecord, Crypto, Codecs, stored, from_dao,
}
use sa_token_rust.OAuth2.Tokens.{exchange_code_for_token, refresh_access_token, refresh_key}
use sa_token_rust.OAuth2.ExchangeLaws.{exchange_code_for_token-public, exchange_code_for_token-once}
use sa_token_rust.OAuth2.Authenticated.{Authenticated}
use sa_token_rust.OAuth2.RefreshLaws.{Rotated, refresh_access_token-rotates}
use sa_token_rust.OAuth2.RefreshOnce.{refresh_access_token-once}
use sa_token_rust.OAuth2.Codes.{code_key}
use sa_token_rust.OAuth2.Pkce.{verify}
use sa_token_rust.Tests.{from_std, storage, storage_laws, dao, known}

abbrev is_empty_list : List String → Bool
is_empty_list [] = true
is_empty_list (a ∷ rest) = false

is_empty_list-eq : (xs : List String) → is_empty_list xs ≡ true → [] ≡ xs
is_empty_list-eq [] h = refl
is_empty_list-eq (a ∷ rest) h = ground arith

abbrev app : OAuth2Client
app = record {
  client_id = "app";
  client_secret_hash = "$argon2id";
  client_secret = "";
  redirect_uris = "https://app/cb" ∷ [];
  grant_types = [];
  scope = [];
  public_client = false;
}

abbrev code_c1 : AuthorizationCode
code_c1 = record {
  code = "c1";
  client_id = "app";
  user_id = "alice";
  redirect_uri = "https://app/cb";
  scope = [];
  created_at = 0;
  expires_at = 600;
  pkce = none;
  state = none;
}

abbrev info : OAuth2TokenInfo
info = record {
  access_token = "at_1";
  client_id = "app";
  user_id = "alice";
  scope = [];
  created_at = 5;
  expires_at = 3600000000005;
  refresh_token = some "rt_1";
}

abbrev is_info : OAuth2TokenInfo → Bool
is_info x =
    x.access_token == "at_1"
    && x.client_id == "app"
    && x.user_id == "alice"
    && is_empty_list x.scope
    && eqb x.created_at 5
    && eqb x.expires_at 3600000000005
    && option_eq x.refresh_token (some "rt_1")

info-eq : (x : OAuth2TokenInfo) → is_info x ≡ true → info ≡ x
info-eq x h = ground (
  arith,
  eq_iff x.access_token "at_1",
  eq_iff x.client_id "app",
  eq_iff x.user_id "alice",
  is_empty_list-eq x.scope,
  option_eq_iff x.refresh_token (some "rt_1"),
)

-- The record of the refresh token that is issued at the instant 5, for the access token `at_1`.
abbrev refresh_record : OAuth2RefreshRecord
refresh_record = record {
  user_id = "alice";
  client_id = "app";
  scope = [];
  access_token = "at_1";
  created_at = 5;
}

abbrev is_refresh : OAuth2RefreshRecord → Bool
is_refresh x =
    x.user_id == "alice"
    && x.client_id == "app"
    && is_empty_list x.scope
    && x.access_token == "at_1"
    && eqb x.created_at 5

refresh-eq : (x : OAuth2RefreshRecord) → is_refresh x ≡ true → refresh_record ≡ x
refresh-eq x h = ground (
  arith,
  eq_iff x.access_token "at_1",
  eq_iff x.client_id "app",
  eq_iff x.user_id "alice",
  is_empty_list-eq x.scope,
)

false_true {ℓ} : {A : Type ℓ} → false ≡ true → A
false_true h = ground arith

abbrev codecs : Codecs
codecs = record {
  client = known (stored app) (λ x. false) (λ x h. false_true h);
  code = known code_c1 (λ x. false) (λ x h. false_true h);
  token = known info is_info info-eq;
  refresh = known refresh_record is_refresh refresh-eq;
}

abbrev crypto : Crypto
crypto = record {
  challenge = λ verifier. verifier;
  hash_password = λ secret. ok secret;
  verify_password = λ secret stored. ok (secret == "s3cret");
}

abbrev server : OAuth2Manager
server = from_dao dao

-- The client and the code are stored.
abbrev with_code : MemoryStorage
with_code =
    (set from_std "sa:oauth2:code:c1" "x" none 0
      (set from_std "sa:oauth2:client:app" "x" none 0 new).1).1

abbrev exchanged : MemoryStorage
exchanged =
    (exchange_code_for_token storage codecs crypto server "1" "1" "c1" "app" "s3cret"
      "https://app/cb" none 5 with_code).1

abbrev bearer : AccessToken
bearer = record {
  access_token = "at_1";
  token_type = "Bearer";
  expires_in = pos 3600;
  refresh_token = some "rt_1";
  scope = [];
}

exchange_code_for_token-once_example :
    (exchange_code_for_token storage codecs crypto server "2" "2" "c1" "app" "s3cret"
      "https://app/cb" none 9 exchanged).0
    ≢ ok bearer
unfolding exchange_code_for_token sa_token_rust.Dao.get_object sa_token_rust.Dao.get_string
    sa_token_rust.Memory.get sa_token_rust.Common.Assoc.lookup sa_token_rust.Dao.set_object
    sa_token_rust.Dao.set_string set sa_token_rust.Memory.write
    sa_token_rust.Memory.Shard.shard_index new sa_token_rust.Dao.cas
    sa_token_rust.Memory.compare_and_swap sa_token_rust.Common.Assoc.insert
    sa_token_rust.Common.Assoc.remove sa_token_rust.Dao.take_string sa_token_rust.Memory.get_del
    sa_token_rust.Dao.set_if_absent sa_token_rust.Memory.set_if_absent sa_token_rust.Dao.delete
    sa_token_rust.Memory.delete sa_token_rust.Memory.Backend.memory_laws
    sa_token_rust.Common.Text.is_empty sa_token_rust.Common.Text.trim sa_token_rust.Memory.deadline
    sa_token_rust.Keys.oauth2_client sa_token_rust.Keys.oauth2_code sa_token_rust.Keys.oauth2_token
    from_dao sa_token_rust.OAuth2.Pkce.is_hashed sa_token_rust.Keys.oauth2_refresh
exchange_code_for_token-once_example =
    exchange_code_for_token-once storage storage_laws codecs crypto server "1" "1" "2" "2" "c1"
      "app" "s3cret" "https://app/cb" "app" "s3cret" "https://app/cb" none none 5 9 with_code bearer
      bearer (omega arith) refl

-- The client and a refresh token are stored.
abbrev with_refresh : MemoryStorage
with_refresh =
    (set from_std "sa:oauth2:refresh:rt_0" "x" none 0
      (set from_std "sa:oauth2:client:app" "x" none 0 new).1).1

other_key :
    refresh_key storage codecs crypto server ("rt_" <> "1")
    ≢ refresh_key storage codecs crypto server "rt_0"
unfolding sa_token_rust.Keys.oauth2_refresh from_dao
other_key h = ground (arith, eq_iff "sa:oauth2:refresh:rt_1" "sa:oauth2:refresh:rt_0")

refresh_access_token-rotates_example :
    Rotated storage storage_laws codecs crypto server "1" "1" "rt_0" "app" 5 with_refresh
      (refresh_access_token storage codecs crypto server "1" "1" "rt_0" "app" "s3cret" 5
        with_refresh).1
unfolding refresh_access_token sa_token_rust.Dao.get_object sa_token_rust.Dao.get_string
    sa_token_rust.Memory.get sa_token_rust.Common.Assoc.lookup sa_token_rust.Dao.set_object
    sa_token_rust.Dao.set_string set sa_token_rust.Memory.write
    sa_token_rust.Memory.Shard.shard_index new sa_token_rust.Dao.cas
    sa_token_rust.Memory.compare_and_swap sa_token_rust.Common.Assoc.insert
    sa_token_rust.Common.Assoc.remove sa_token_rust.Dao.take_string sa_token_rust.Memory.get_del
    sa_token_rust.Dao.set_if_absent sa_token_rust.Memory.set_if_absent sa_token_rust.Dao.delete
    sa_token_rust.Memory.delete sa_token_rust.Memory.Backend.memory_laws
    sa_token_rust.Common.Text.is_empty sa_token_rust.Common.Text.trim sa_token_rust.Memory.deadline
    sa_token_rust.Keys.oauth2_client sa_token_rust.Keys.oauth2_code sa_token_rust.Keys.oauth2_token
    from_dao sa_token_rust.OAuth2.Pkce.is_hashed sa_token_rust.Keys.oauth2_refresh
refresh_access_token-rotates_example =
    refresh_access_token-rotates storage storage_laws codecs crypto server "1" "1" "rt_0" "app"
      "s3cret" 5 with_refresh bearer other_key refl

refresh_access_token-once_example :
    (refresh_access_token storage codecs crypto server "1" "1" "rt_0" "app" "s3cret" 9
      (refresh_access_token storage codecs crypto server "1" "1" "rt_0" "app" "s3cret" 5
        with_refresh).1).0
    ≢ ok bearer
unfolding refresh_access_token sa_token_rust.Dao.get_object sa_token_rust.Dao.get_string
    sa_token_rust.Memory.get sa_token_rust.Common.Assoc.lookup sa_token_rust.Dao.set_object
    sa_token_rust.Dao.set_string set sa_token_rust.Memory.write
    sa_token_rust.Memory.Shard.shard_index new sa_token_rust.Dao.cas
    sa_token_rust.Memory.compare_and_swap sa_token_rust.Common.Assoc.insert
    sa_token_rust.Common.Assoc.remove sa_token_rust.Dao.take_string sa_token_rust.Memory.get_del
    sa_token_rust.Dao.set_if_absent sa_token_rust.Memory.set_if_absent sa_token_rust.Dao.delete
    sa_token_rust.Memory.delete sa_token_rust.Memory.Backend.memory_laws
    sa_token_rust.Common.Text.is_empty sa_token_rust.Common.Text.trim sa_token_rust.Memory.deadline
    sa_token_rust.Keys.oauth2_client sa_token_rust.Keys.oauth2_code sa_token_rust.Keys.oauth2_token
    from_dao sa_token_rust.OAuth2.Pkce.is_hashed sa_token_rust.Keys.oauth2_refresh
refresh_access_token-once_example =
    refresh_access_token-once storage storage_laws codecs crypto server "1" "1" "1" "1" "rt_0" "app"
      "s3cret" "app" "s3cret" 5 9 with_refresh bearer bearer (omega arith) other_key other_key refl

-- A public client and a code with an S256 challenge.
abbrev long_verifier : String
long_verifier = "0123456789012345678901234567890123456789012345678"

abbrev challenge : PkceChallenge
challenge = record { code_challenge = long_verifier; code_challenge_method = s256 }

abbrev mobile : OAuth2Client
mobile = record app { client_id = "app"; client_secret_hash = ""; public_client = true }

abbrev code_c2 : AuthorizationCode
code_c2 = record code_c1 { pkce = some challenge }

abbrev public_codecs : Codecs
public_codecs = record codecs {
  client = known (stored mobile) (λ x. false) (λ x h. false_true h);
  code = known code_c2 (λ x. false) (λ x h. false_true h);
}

exchange_code_for_token-public_example :
    (raw : String) × (auth_code : AuthorizationCode) × (pkce : PkceChallenge) × (v : String)
    × (storage_laws.live (code_key storage public_codecs crypto server "c1") 5 with_code ≡ some raw)
    × (public_codecs.code.decode raw ≡ ok auth_code)
    × (auth_code.pkce ≡ some pkce)
    × (pkce.code_challenge_method ≡ s256)
    × (some long_verifier ≡ some v)
    × (verify crypto pkce v ≡ ok tt)
unfolding exchange_code_for_token sa_token_rust.Dao.get_object sa_token_rust.Dao.get_string
    sa_token_rust.Memory.get sa_token_rust.Common.Assoc.lookup sa_token_rust.Dao.set_object
    sa_token_rust.Dao.set_string set sa_token_rust.Memory.write
    sa_token_rust.Memory.Shard.shard_index new sa_token_rust.Dao.cas
    sa_token_rust.Memory.compare_and_swap sa_token_rust.Common.Assoc.insert
    sa_token_rust.Common.Assoc.remove sa_token_rust.Dao.take_string sa_token_rust.Memory.get_del
    sa_token_rust.Dao.set_if_absent sa_token_rust.Memory.set_if_absent sa_token_rust.Dao.delete
    sa_token_rust.Memory.delete sa_token_rust.Memory.Backend.memory_laws
    sa_token_rust.Common.Text.is_empty sa_token_rust.Common.Text.trim sa_token_rust.Memory.deadline
    sa_token_rust.Keys.oauth2_client sa_token_rust.Keys.oauth2_code sa_token_rust.Keys.oauth2_token
    from_dao sa_token_rust.OAuth2.Pkce.is_hashed sa_token_rust.Keys.oauth2_refresh
exchange_code_for_token-public_example =
    exchange_code_for_token-public storage storage_laws public_codecs crypto server "1" "1" "c1"
      "app" "" "https://app/cb" (some long_verifier) 5 with_code bearer mobile refl refl refl
