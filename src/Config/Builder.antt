-- ===== src/Config/Builder.antt =====
-- `SaTokenConfigBuilder` of sa-token-core/src/config.rs: each method sets a field of the configuration.
-- The storage, the listeners, the event bus and the serializer that it also holds are left out.
use sa_token_rust.Common.{ℕ, String, Bool, some, ok, err}
use sa_token_rust.Common.Int.{ℤ}
use sa_token_rust.Error.{SaTokenResult}
use sa_token_rust.Keys.{SaKeyLayout}
use sa_token_rust.Config.{
  SaTokenConfig, TokenStyle, SameSite, LogoutMode, LogoutRange, ReplacedLoginExitMode,
  ReplacedRange, GrantWritePolicy,
}
use sa_token_rust.Config.Checks.{validate_jwt}

unfoldable pub token_name : SaTokenConfig → String → SaTokenConfig
token_name self value = record self { token_name = value }

unfoldable pub timeout : SaTokenConfig → ℤ → SaTokenConfig
timeout self value = record self { timeout = value }

unfoldable pub active_timeout : SaTokenConfig → ℤ → SaTokenConfig
active_timeout self value = record self { active_timeout = value }

unfoldable pub dynamic_active_timeout : SaTokenConfig → Bool → SaTokenConfig
dynamic_active_timeout self value = record self { dynamic_active_timeout = value }

unfoldable pub auto_renew : SaTokenConfig → Bool → SaTokenConfig
auto_renew self value = record self { auto_renew = value }

unfoldable pub renew_threshold : SaTokenConfig → ℤ → SaTokenConfig
renew_threshold self value = record self { renew_threshold = value }

unfoldable pub is_concurrent : SaTokenConfig → Bool → SaTokenConfig
is_concurrent self value = record self { is_concurrent = value }

unfoldable pub is_share : SaTokenConfig → Bool → SaTokenConfig
is_share self value = record self { is_share = value }

unfoldable pub token_style : SaTokenConfig → TokenStyle → SaTokenConfig
token_style self value = record self { token_style = value }

unfoldable pub is_log : SaTokenConfig → Bool → SaTokenConfig
is_log self value = record self { is_log = value }

unfoldable pub is_read_cookie : SaTokenConfig → Bool → SaTokenConfig
is_read_cookie self value = record self { is_read_cookie = value }

unfoldable pub is_read_header : SaTokenConfig → Bool → SaTokenConfig
is_read_header self value = record self { is_read_header = value }

unfoldable pub is_read_body : SaTokenConfig → Bool → SaTokenConfig
is_read_body self value = record self { is_read_body = value }

unfoldable pub token_prefix : SaTokenConfig → String → SaTokenConfig
token_prefix self value = record self { token_prefix = (some value) }

unfoldable pub jwt_secret_key : SaTokenConfig → String → SaTokenConfig
jwt_secret_key self value = record self { jwt_secret_key = (some value) }

unfoldable pub jwt_algorithm : SaTokenConfig → String → SaTokenConfig
jwt_algorithm self value = record self { jwt_algorithm = (some value) }

unfoldable pub jwt_issuer : SaTokenConfig → String → SaTokenConfig
jwt_issuer self value = record self { jwt_issuer = (some value) }

unfoldable pub jwt_audience : SaTokenConfig → String → SaTokenConfig
jwt_audience self value = record self { jwt_audience = (some value) }

unfoldable pub jwt_fallback_on_error : SaTokenConfig → Bool → SaTokenConfig
jwt_fallback_on_error self value = record self { jwt_fallback_on_error = value }

unfoldable pub enable_nonce : SaTokenConfig → Bool → SaTokenConfig
enable_nonce self value = record self { enable_nonce = value }

unfoldable pub nonce_timeout : SaTokenConfig → ℤ → SaTokenConfig
nonce_timeout self value = record self { nonce_timeout = value }

unfoldable pub enable_refresh_token : SaTokenConfig → Bool → SaTokenConfig
enable_refresh_token self value = record self { enable_refresh_token = value }

unfoldable pub refresh_token_timeout : SaTokenConfig → ℤ → SaTokenConfig
refresh_token_timeout self value = record self { refresh_token_timeout = value }

unfoldable pub storage_key_prefix : SaTokenConfig → String → SaTokenConfig
storage_key_prefix self value = record self { storage_key_prefix = value }

unfoldable pub key_layout : SaTokenConfig → SaKeyLayout → SaTokenConfig
key_layout self value = record self { key_layout = value }

unfoldable pub max_login_count : SaTokenConfig → ℤ → SaTokenConfig
max_login_count self value = record self { max_login_count = value }

unfoldable pub overflow_logout_mode : SaTokenConfig → LogoutMode → SaTokenConfig
overflow_logout_mode self value = record self { overflow_logout_mode = value }

unfoldable pub replaced_login_exit_mode : SaTokenConfig → ReplacedLoginExitMode → SaTokenConfig
replaced_login_exit_mode self value = record self { replaced_login_exit_mode = value }

unfoldable pub replaced_range : SaTokenConfig → ReplacedRange → SaTokenConfig
replaced_range self value = record self { replaced_range = value }

unfoldable pub right_now_create_token_session : SaTokenConfig → Bool → SaTokenConfig
right_now_create_token_session self value = record self { right_now_create_token_session = value }

unfoldable pub token_session_check_login : SaTokenConfig → Bool → SaTokenConfig
token_session_check_login self value = record self { token_session_check_login = value }

unfoldable pub logout_range : SaTokenConfig → LogoutRange → SaTokenConfig
logout_range self value = record self { logout_range = value }

unfoldable pub is_logout_keep_token_session : SaTokenConfig → Bool → SaTokenConfig
is_logout_keep_token_session self value = record self { is_logout_keep_token_session = value }

unfoldable pub grant_cache_ttl : SaTokenConfig → ℤ → SaTokenConfig
grant_cache_ttl self value = record self { grant_cache_ttl = value }

unfoldable pub grant_cache_max_entries : SaTokenConfig → ℕ → SaTokenConfig
grant_cache_max_entries self value = record self { grant_cache_max_entries = value }

unfoldable pub grant_cache_single_flight : SaTokenConfig → Bool → SaTokenConfig
grant_cache_single_flight self value = record self { grant_cache_single_flight = value }

unfoldable pub grant_request_scope : SaTokenConfig → Bool → SaTokenConfig
grant_request_scope self value = record self { grant_request_scope = value }

unfoldable pub grant_write_policy : SaTokenConfig → GrantWritePolicy → SaTokenConfig
grant_write_policy self value = record self { grant_write_policy = value }

unfoldable pub role_wildcard : SaTokenConfig → Bool → SaTokenConfig
role_wildcard self value = record self { role_wildcard = value }

unfoldable pub context_auto_create : SaTokenConfig → Bool → SaTokenConfig
context_auto_create self value = record self { context_auto_create = value }

unfoldable pub http_basic : SaTokenConfig → String → SaTokenConfig
http_basic self value = record self { http_basic = value }

unfoldable pub same_token_timeout : SaTokenConfig → ℤ → SaTokenConfig
same_token_timeout self value = record self { same_token_timeout = value }

unfoldable pub same_token_header : SaTokenConfig → String → SaTokenConfig
same_token_header self value = record self { same_token_header = value }

unfoldable pub max_try_times : SaTokenConfig → ℤ → SaTokenConfig
max_try_times self value = record self { max_try_times = value }

unfoldable pub sign_secret_key : SaTokenConfig → String → SaTokenConfig
sign_secret_key self value = record self { sign_secret_key = (some value) }

unfoldable pub sign_window_secs : SaTokenConfig → ℤ → SaTokenConfig
sign_window_secs self value = record self { sign_window_secs = value }

unfoldable pub is_write_cookie : SaTokenConfig → Bool → SaTokenConfig
is_write_cookie self value = record self { cookie = record self.cookie { is_write_cookie = value } }

unfoldable pub cookie_domain : SaTokenConfig → String → SaTokenConfig
cookie_domain self value = record self { cookie = record self.cookie { domain = some value } }

unfoldable pub cookie_path : SaTokenConfig → String → SaTokenConfig
cookie_path self value = record self { cookie = record self.cookie { path = some value } }

unfoldable pub cookie_http_only : SaTokenConfig → Bool → SaTokenConfig
cookie_http_only self value = record self { cookie = record self.cookie { http_only = value } }

unfoldable pub cookie_secure : SaTokenConfig → Bool → SaTokenConfig
cookie_secure self value = record self { cookie = record self.cookie { secure = value } }

unfoldable pub cookie_same_site : SaTokenConfig → SameSite → SaTokenConfig
cookie_same_site self value = record self { cookie = record self.cookie { same_site = some value } }

-- Without the call of the serializer.
unfoldable pub try_build_config : SaTokenConfig → SaTokenResult SaTokenConfig
try_build_config self = elim (validate_jwt self) [ ok u ↦ ok self | err e ↦ err e ]
