-- ===== src/Config/Checks.antt =====
-- The default configuration and its checks: sa-token-core/src/config.rs, with `from_config` of keys.rs.
use sa_token_rust.Common.{
  ℕ, String, Bool, true, false, Option, none, some, ok, err, not, if◌then◌else◌, ◌&&◌,
}
use sa_token_rust.Common.Int.{pos, negsuc, is_positive, to_ℕ}
use sa_token_rust.Common.Text.{is_empty, trim, ◌<>◌}
use sa_token_rust.Error.{SaTokenResult, config_error}
use sa_token_rust.Keys.{SaKeys, with_layout, SaKeyLayout, three_segment, java_four_segment}
use sa_token_rust.Dao.{from_secs}
use sa_token_rust.Config.{
  SaTokenConfig, TokenCookieConfig, TokenStyle, SameSite, LogoutMode, LogoutRange,
  ReplacedLoginExitMode, ReplacedRange, GrantWritePolicy,
}

abbrev pub default_cookie : TokenCookieConfig
default_cookie = record {
  is_write_cookie = false;
  domain = none;
  path = some "/";
  http_only = true;
  secure = false;
  same_site = some SameSite.lax;
}

-- `SaTokenConfig::default`.
abbrev pub default : SaTokenConfig
default = record {
  token_name = "sa-token";
  timeout = pos 2592000;
  active_timeout = negsuc 0;
  dynamic_active_timeout = false;
  auto_renew = false;
  renew_threshold = pos 300;
  is_concurrent = true;
  is_share = false;
  token_style = TokenStyle.uuid;
  is_log = false;
  is_read_cookie = true;
  is_read_header = true;
  is_read_body = true;
  token_prefix = none;
  cookie = default_cookie;
  jwt_secret_key = none;
  jwt_algorithm = some "HS256";
  jwt_issuer = none;
  jwt_audience = none;
  jwt_fallback_on_error = false;
  enable_nonce = false;
  nonce_timeout = negsuc 0;
  enable_refresh_token = false;
  refresh_token_timeout = pos 604800;
  storage_key_prefix = "sa:";
  key_layout = three_segment;
  max_login_count = negsuc 0;
  overflow_logout_mode = LogoutMode.logout;
  replaced_login_exit_mode = ReplacedLoginExitMode.old_device;
  replaced_range = ReplacedRange.curr_device_type;
  right_now_create_token_session = false;
  token_session_check_login = true;
  logout_range = LogoutRange.token;
  is_logout_keep_token_session = false;
  grant_cache_ttl = pos 0;
  grant_cache_max_entries = 4096;
  grant_cache_single_flight = true;
  grant_request_scope = true;
  grant_write_policy = GrantWritePolicy.warn;
  role_wildcard = false;
  context_auto_create = false;
  http_basic = "";
  same_token_timeout = pos 86400;
  same_token_header = "SA-SAME-TOKEN";
  max_try_times = pos 12;
  sign_secret_key = none;
  sign_window_secs = pos 300;
}

check_secret : Option String → SaTokenResult (Unit {0})
unfolding trim is_empty
check_secret none = err (config_error "jwt_secret_key required for Jwt token style")
check_secret (some s) =
    if is_empty (trim s)
    then err (config_error "jwt_secret_key required for Jwt token style")
    else ok tt

is_jwt : TokenStyle → Bool
is_jwt TokenStyle.jwt = true
is_jwt other = false

unfoldable pub validate_jwt : SaTokenConfig → SaTokenResult (Unit {0})
unfolding check_secret is_jwt
validate_jwt self = if is_jwt self.token_style then check_secret self.jwt_secret_key else ok tt

check_prefix : Option String → SaTokenResult (Unit {0})
unfolding is_empty
check_prefix none = ok tt
check_prefix (some p) =
    if is_empty p
    then err (config_error "token_prefix cannot be empty; use None to disable a custom prefix")
    else ok tt

unfoldable pub validate_token_io : SaTokenConfig → SaTokenResult (Unit {0})
unfolding check_prefix
validate_token_io self =
    if not self.is_read_header && not self.is_read_cookie && not self.is_read_body
    then err
        (config_error "at least one of is_read_header, is_read_cookie, is_read_body must be true")
    else check_prefix self.token_prefix

unfoldable pub grant_cache_duration : SaTokenConfig → Option ℕ
unfolding from_secs
grant_cache_duration self =
    if is_positive self.grant_cache_ttl then some (from_secs (to_ℕ self.grant_cache_ttl)) else none

unfoldable pub make_key : SaTokenConfig → String → String → String
make_key self suffix id = self.storage_key_prefix <> suffix <> id

unfoldable pub key_prefix : SaTokenConfig → String
key_prefix self = self.storage_key_prefix

layout_keys : SaKeyLayout → SaTokenConfig → SaKeys
unfolding with_layout
layout_keys three_segment config = with_layout config.storage_key_prefix three_segment
layout_keys java_four_segment config = with_layout config.token_name java_four_segment

unfoldable pub from_config : SaTokenConfig → SaKeys
unfolding layout_keys
from_config config = layout_keys config.key_layout config
