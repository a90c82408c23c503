-- ===== src/Config.antt =====
-- The configuration of sa-token-core/src/config.rs. Its last field, the serializer, is the `Codec`
-- that each service takes.
pub mod Checks
pub mod Builder
use sa_token_rust.Common.{ℕ, String, Bool, Option}
use sa_token_rust.Common.Int.{ℤ}
use sa_token_rust.Keys.{SaKeyLayout}
use sa_token_rust.Dao.{DaoConfig}

pub data LogoutMode : Type 0 where
  logout kick_out replaced : LogoutMode

pub data LogoutRange : Type 0 where
  token account : LogoutRange

pub data ReplacedLoginExitMode : Type 0 where
  old_device new_device : ReplacedLoginExitMode

pub data ReplacedRange : Type 0 where
  curr_device_type all_device_type : ReplacedRange

pub data GrantWritePolicy : Type 0 where
  allow warn reject : GrantWritePolicy

pub data TokenStyle : Type 0 where
  uuid simple_uuid random32 random64 random128 jwt hash timestamp tik : TokenStyle

-- `SameSite` of sa-token-adapter/src/context.rs.
pub data SameSite : Type 0 where
  strict lax none : SameSite

pub record TokenCookieConfig : Type 0 where
  pub is_write_cookie : Bool
  pub domain : Option String
  pub path : Option String
  pub http_only : Bool
  pub secure : Bool
  pub same_site : Option SameSite

pub record SaTokenConfig : Type 0 where
  pub token_name : String
  pub timeout : ℤ
  pub active_timeout : ℤ
  pub dynamic_active_timeout : Bool
  pub auto_renew : Bool
  pub renew_threshold : ℤ
  pub is_concurrent : Bool
  pub is_share : Bool
  pub token_style : TokenStyle
  pub is_log : Bool
  pub is_read_cookie : Bool
  pub is_read_header : Bool
  pub is_read_body : Bool
  pub token_prefix : Option String
  pub cookie : TokenCookieConfig
  pub jwt_secret_key : Option String
  pub jwt_algorithm : Option String
  pub jwt_issuer : Option String
  pub jwt_audience : Option String
  pub jwt_fallback_on_error : Bool
  pub enable_nonce : Bool
  pub nonce_timeout : ℤ
  pub enable_refresh_token : Bool
  pub refresh_token_timeout : ℤ
  pub storage_key_prefix : String
  pub key_layout : SaKeyLayout
  pub max_login_count : ℤ
  pub overflow_logout_mode : LogoutMode
  pub replaced_login_exit_mode : ReplacedLoginExitMode
  pub replaced_range : ReplacedRange
  pub right_now_create_token_session : Bool
  pub token_session_check_login : Bool
  pub logout_range : LogoutRange
  pub is_logout_keep_token_session : Bool
  pub grant_cache_ttl : ℤ
  pub grant_cache_max_entries : ℕ
  pub grant_cache_single_flight : Bool
  pub grant_request_scope : Bool
  pub grant_write_policy : GrantWritePolicy
  pub role_wildcard : Bool
  pub context_auto_create : Bool
  pub http_basic : String
  pub same_token_timeout : ℤ
  pub same_token_header : String
  pub max_try_times : ℤ
  pub sign_secret_key : Option String
  pub sign_window_secs : ℤ

-- The part that the data access layer reads.
abbrev pub dao_config : SaTokenConfig → DaoConfig
dao_config c = record { timeout = c.timeout; active_timeout = c.active_timeout }
