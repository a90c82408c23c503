-- ===== src/Error.antt =====
-- The crate's error type: `SaTokenError` of sa-token-core/src/error.rs.
use sa_token_rust.Common.{String, Result}
use sa_token_rust.Common.Int.{ℤ}

pub data SaTokenError : Type 0 where
  token_not_found : SaTokenError
  invalid_token : String → SaTokenError
  token_expired not_login token_inactive permission_denied : SaTokenError
  permission_denied_detail role_denied account_banned : String → SaTokenError
  account_kicked_out account_replaced : SaTokenError
  not_safe : String → SaTokenError
  disable_service : String → ℤ → SaTokenError
  session_not_found nonce_already_used invalid_nonce_format invalid_nonce_timestamp : SaTokenError
  refresh_token_not_found refresh_token_invalid_data refresh_token_missing_login_id : SaTokenError
  refresh_token_invalid_expire_time token_empty token_too_short login_id_not_number : SaTokenError
  oauth2_client_not_found oauth2_invalid_credentials oauth2_client_id_mismatch : SaTokenError
  oauth2_redirect_uri_mismatch oauth2_code_not_found oauth2_access_token_not_found : SaTokenError
  oauth2_refresh_token_not_found oauth2_invalid_refresh_token oauth2_invalid_scope : SaTokenError
  oauth2_pkce_required oauth2_pkce_mismatch : SaTokenError
  oauth2_token_revoke_failed : String → SaTokenError
  oauth2_unsupported_grant oauth2_pkce_required_for_public_client : SaTokenError
  invalid_ticket ticket_expired service_mismatch sso_session_not_found : SaTokenError
  sso_sign_invalid : SaTokenError
  terminal_denied : String → String → SaTokenError
  same_token_invalid : SaTokenError
  basic_auth_failed : String → SaTokenError
  sign_invalid sign_timestamp_expired temp_token_not_found temp_token_expired : SaTokenError
  not_initialized already_initialized : SaTokenError
  storage_error config_error serialization_error internal_error : String → SaTokenError

-- `SaTokenResult<T>`.
abbrev pub SaTokenResult {ℓ} : Type ℓ → Type ℓ
SaTokenResult A = Result SaTokenError A
