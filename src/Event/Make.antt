-- ===== src/Event/Make.antt =====
-- The constructors of `SaTokenEvent`: sa-token-core/src/event/mod.rs.
use sa_token_rust.Common.{ℕ, String}
use sa_token_rust.Common.Int.{ℤ}
use sa_token_rust.Event.{SaTokenEvent, SaTokenEventType, Extra, event}

unfoldable pub login : String → String → ℕ → SaTokenEvent
login login_id token = event SaTokenEventType.login login_id token Extra.none

unfoldable pub logout : String → String → ℕ → SaTokenEvent
logout login_id token = event SaTokenEventType.logout login_id token Extra.none

unfoldable pub kick_out : String → String → ℕ → SaTokenEvent
kick_out login_id token = event SaTokenEventType.kick_out login_id token Extra.none

unfoldable pub renew_timeout : String → String → ℤ → ℕ → SaTokenEvent
renew_timeout login_id token seconds =
    event SaTokenEventType.renew_timeout login_id token (Extra.timeout_seconds seconds)

unfoldable pub replaced : String → String → ℕ → SaTokenEvent
replaced login_id token = event SaTokenEventType.replaced login_id token Extra.none

unfoldable pub banned : String → String → ℤ → ℕ → SaTokenEvent
banned login_id service level =
    event SaTokenEventType.banned login_id "" (Extra.service_level service level)

unfoldable pub unbanned : String → String → ℕ → SaTokenEvent
unbanned login_id service = event SaTokenEventType.unbanned login_id "" (Extra.service service)

unfoldable pub open_safe : String → String → ℕ → SaTokenEvent
open_safe token service = event SaTokenEventType.open_safe "" token (Extra.service service)

unfoldable pub close_safe : String → String → ℕ → SaTokenEvent
close_safe token service = event SaTokenEventType.close_safe "" token (Extra.service service)

unfoldable pub safe_verify : String → String → ℕ → SaTokenEvent
safe_verify token service = event SaTokenEventType.safe_verify "" token (Extra.service service)

unfoldable pub grant_changed : String → String → ℕ → SaTokenEvent
grant_changed login_id login_type now =
    record (event SaTokenEventType.grant_changed login_id "" Extra.none now) {
      login_type = login_type;
    }
