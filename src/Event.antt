-- ===== src/Event.antt =====
-- Events: `SaTokenEvent` of sa-token-core/src/event/mod.rs and its constructors. The JSON of
-- `extra` is the data that it holds. The bus is a parameter of what publishes.
pub mod Make
use sa_token_rust.Common.{ℕ, String}
use sa_token_rust.Common.Int.{ℤ}

pub data SaTokenEventType : Type 0 where
  login logout kick_out renew_timeout replaced banned unbanned open_safe close_safe :
      SaTokenEventType
  safe_verify grant_changed : SaTokenEventType

pub data Extra : Type 0 where
  none : Extra
  timeout_seconds : ℤ → Extra
  service : String → Extra
  service_level : String → ℤ → Extra

pub record SaTokenEvent : Type 0 where
  pub event_type : SaTokenEventType
  pub login_id : String
  pub token : String
  pub login_type : String
  pub timestamp : ℕ
  pub extra : Extra

-- The fields that the constructors share.
abbrev pub event : SaTokenEventType → String → String → Extra → ℕ → SaTokenEvent
event event_type login_id token extra now = record {
  event_type = event_type;
  login_id = login_id;
  token = token;
  login_type = "default";
  timestamp = now;
  extra = extra;
}

unfoldable pub with_login_type : SaTokenEvent → String → SaTokenEvent
with_login_type self login_type = record self { login_type = login_type }
