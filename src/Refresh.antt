-- ===== src/Refresh.antt =====
-- Refresh tokens: sa-token-core/src/refresh.rs. serde, the time format of `chrono`, the random UUID and
-- the token generator are the fields of the parameter `Libraries`; a JSON value is of the parameter
-- type `Value`.
use sa_token_rust.Common.{
  ℕ, ◌+◌, ◌/◌, ◌^◌, String, Bool, false, Option, none, some, List, [], ◌∷◌, ok, err, if◌then◌else◌,
  ltb,
}
use sa_token_rust.Common.Int.{is_positive, to_ℕ}
use sa_token_rust.Common.Text.{◌<>◌, is_empty}
use sa_token_rust.Common.Decimal.{print_ℕ}
use sa_token_rust.Error.{
  SaTokenResult, config_error, refresh_token_not_found, refresh_token_missing_login_id,
  refresh_token_invalid_expire_time, token_expired,
}
use sa_token_rust.Config.{SaTokenConfig, dao_config}
use sa_token_rust.Storage.{SaStorage}
use sa_token_rust.Keys.{login_type_default}
use sa_token_rust.Keys.More
use sa_token_rust.Token.{TokenInfo, update_active_time}
use sa_token_rust.Token
use sa_token_rust.TokenRepo.{
  TokenRepo, save_token_id_mapping, save_login_mapping, replace_index, delete_token_info,
  delete_token_id_mapping,
}
use sa_token_rust.TokenRepo.Bodies.{save_token_info}
use sa_token_rust.Dao
use sa_token_rust.Dao.{
  Action, pure, throw, with_now, lift, ok_or, ◌>>=◌, ◌>>◌, try, from_secs, add_seconds, Codec,
  SaTokenDao, timeout_duration, list_push_unique, list_remove, list_range, get_object, set_object,
}

pub record RefreshTokenRecord (Value : Type 0) : Type 0 where
  pub access_token : String
  pub login_id : String
  pub created_at : String
  pub expire_time : Option String
  pub refreshed_at : Option String
  pub extra_data : Option Value

-- What the code takes from other crates and from random sources.
pub record Libraries (Value : Type 0) : Type 0 where
  pub token_codec : Codec (TokenInfo Value)
  pub record_codec : Codec (RefreshTokenRecord Value)
  pub to_rfc3339 : ℕ → String
  pub parse_from_rfc3339 : String → Option ℕ
  -- `chrono::Duration::from_std`.
  pub from_std : ℕ → Option ℕ
  pub uuid : String
  -- `TokenGenerator`: the result of the call with this number, for this account and extra data.
  pub create : Option Value → String → ℕ → SaTokenResult String

pub record RefreshTokenManager : Type 0 where
  pub dao : SaTokenDao
  pub token_repo : TokenRepo
  pub config : SaTokenConfig

-- `Utc::now() + d`; a duration out of range is an error with the message.
unfoldable pub plus_timeout : String → (ℕ → Option ℕ) → ℕ → Option ℕ → SaTokenResult (Option ℕ)
plus_timeout message from_std now none = ok none
plus_timeout message from_std now (some d) = elim (from_std d) [
  | none ↦ err (config_error message)
  | some n ↦ ok (some (now + n))
]

module _ (st : SaStorage) {Value : Type 0} (libs : Libraries Value) where
  -- The lifetime of a refresh token, and its end.
  unfoldable pub refresh_ttl : SaTokenConfig → Option ℕ
  unfolding from_secs
  refresh_ttl config =
      if is_positive config.refresh_token_timeout
      then some (from_secs (to_ℕ config.refresh_token_timeout))
      else none

  unfoldable pub refresh_end : SaTokenConfig → ℕ → Option ℕ
  unfolding add_seconds
  refresh_end config now =
      if is_positive config.refresh_token_timeout
      then some (add_seconds now config.refresh_token_timeout)
      else none

  unfoldable pub generate : String → ℕ → String
  unfolding print_ℕ
  generate login_id now =
      "refresh_" <> print_ℕ (now / 10 ^ 6) <> "_" <> login_id <> "_" <> libs.uuid

  formatted : Option ℕ → Option String
  formatted none = none
  formatted (some t) = some (libs.to_rfc3339 t)

  -- `RefreshTokenRecord::new` with the expiry and the extra data.
  unfoldable pub new_record :
      String → String → Option ℕ → Option Value → ℕ → RefreshTokenRecord Value
  unfolding formatted
  new_record access_token login_id expire extra_data now = record {
    access_token = access_token;
    login_id = login_id;
    created_at = libs.to_rfc3339 now;
    expire_time = formatted expire;
    refreshed_at = none;
    extra_data = extra_data;
  }

  unfoldable pub mark_refreshed : RefreshTokenRecord Value → String → ℕ → RefreshTokenRecord Value
  mark_refreshed self new_access_token now = record self {
    access_token = new_access_token;
    refreshed_at = some (libs.to_rfc3339 now);
  }

  unfoldable pub store_with_extra :
      RefreshTokenManager
      → String
      → String
      → String
      → String
      → Option Value
      → Action st.State (Unit {0})
  unfolding new_record refresh_end refresh_ttl
  store_with_extra self refresh_token access_token login_type login_id extra_data = with_now λ now.
      do
        set_object st libs.record_codec (More.refresh self.dao.keys refresh_token)
            (new_record access_token login_id (refresh_end self.config now) extra_data now)
            (refresh_ttl self.config)
        list_push_unique st (More.refresh_user_index self.dao.keys login_type login_id)
            refresh_token none
        pure tt

  unfoldable pub store :
      RefreshTokenManager → String → String → String → String → Action st.State (Unit {0})
  store self refresh_token access_token login_type login_id =
      store_with_extra self refresh_token access_token login_type login_id none

  -- The index entry goes if there is a record; it is looked for under the default login type.
  drop_from_index :
      RefreshTokenManager
      → String
      → SaTokenResult (Option (RefreshTokenRecord Value))
      → Action st.State Bool
  drop_from_index self refresh_token (ok (some r)) =
      list_remove st (More.refresh_user_index self.dao.keys login_type_default r.login_id)
        refresh_token
  drop_from_index self refresh_token (ok none) = pure false
  drop_from_index self refresh_token (err e) = pure false

  unfoldable pub delete : RefreshTokenManager → String → Action st.State (Unit {0})
  unfolding drop_from_index
  delete self refresh_token now s =
      let (found, s') =
        get_object st libs.record_codec (More.refresh self.dao.keys refresh_token) now s in
      try (drop_from_index self refresh_token found)
        (Dao.delete st (More.refresh self.dao.keys refresh_token)) now s'

  -- The expiry of a record: a passed one deletes the record.
  check_expiry : RefreshTokenManager → String → Option String → Action st.State (Unit {0})
  check_expiry self refresh_token none = pure tt
  check_expiry self refresh_token (some text) = do
    expire ← ok_or refresh_token_invalid_expire_time (libs.parse_from_rfc3339 text)
    with_now λ now.
        if ltb expire now then (do delete self refresh_token; throw token_expired) else pure tt

  unfoldable pub validate : RefreshTokenManager → String → Action st.State String
  unfolding check_expiry is_empty
  validate self refresh_token = do
    found ← get_object st libs.record_codec (More.refresh self.dao.keys refresh_token)
    r ← ok_or refresh_token_not_found found
    if is_empty r.login_id
        then throw refresh_token_missing_login_id
        else (do check_expiry self refresh_token r.expire_time; pure r.login_id)

  -- The body of the new access token.
  unfoldable pub renewed_info :
      SaTokenConfig → String → String → String → Option Value → ℕ → SaTokenResult (TokenInfo Value)
  unfolding update_active_time Token.new refresh_end plus_timeout timeout_duration
  renewed_info config refresh_token login_id token extra_data now =
      elim (plus_timeout "token timeout duration out of range" libs.from_std now
        (timeout_duration (dao_config config))) [
          | err e ↦ err e
          | ok expire ↦ ok (record (update_active_time (Token.new token login_id now) now) {
            refresh_token = some refresh_token;
            refresh_token_expire_time = refresh_end config now;
            extra_data = extra_data;
            expire_time = expire;
          })
        ]

  -- The new body and its mappings replace the old ones, all under the default login type.
  unfoldable pub replace_access :
      RefreshTokenManager → TokenInfo Value → String → String → Action st.State (Unit {0})
  replace_access self info login_id old_access = do
    save_token_info st libs.token_codec self.token_repo info
    save_token_id_mapping st self.token_repo info.token login_type_default login_id
    save_login_mapping st self.token_repo login_type_default login_id info.token
    replace_index st self.token_repo login_type_default login_id old_access info.token
    delete_token_info st self.token_repo old_access
    delete_token_id_mapping st self.token_repo old_access

  unfoldable pub refresh_access_token :
      RefreshTokenManager → String → Action st.State (String × String)
  unfolding renewed_info mark_refreshed refresh_ttl
  refresh_access_token self refresh_token = do
    login_id ← validate self refresh_token
    found ← get_object st libs.record_codec (More.refresh self.dao.keys refresh_token)
    r ← ok_or refresh_token_not_found found
    token ← lift (libs.create r.extra_data login_id 0)
    with_now λ now. do
      info ← lift (renewed_info self.config refresh_token login_id token r.extra_data now)
      replace_access self info login_id r.access_token
      set_object st libs.record_codec (More.refresh self.dao.keys refresh_token)
          (mark_refreshed r token now) (refresh_ttl self.config)
      pure (token, login_id)

  unfoldable pub get_user_refresh_tokens :
      RefreshTokenManager → String → String → Action st.State (List String)
  get_user_refresh_tokens self login_type login_id =
      list_range st (More.refresh_user_index self.dao.keys login_type login_id) 0 none

  unfoldable pub delete_all : RefreshTokenManager → List String → Action st.State (Unit {0})
  delete_all self [] = pure tt
  delete_all self (token ∷ tokens) = do delete self token; delete_all self tokens

  unfoldable pub revoke_all_for_user :
      RefreshTokenManager → String → String → Action st.State (Unit {0})
  unfolding delete_all
  revoke_all_for_user self login_type login_id = do
    tokens ← get_user_refresh_tokens self login_type login_id
    delete_all self tokens
    try (Dao.delete st (More.refresh_user_index self.dao.keys login_type login_id)) (pure tt)
