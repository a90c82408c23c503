-- ===== src/Token.antt =====
-- A token's body: sa-token-core/src/token/mod.rs, with the markers of token/map.rs. A JSON value is
-- of the parameter type `Value`. Instants are counted in nanoseconds.
use sa_token_rust.Common.{
  ℕ, ◌-◌, ◌/◌, ◌^◌, String, Bool, false, Option, none, some, if◌then◌else◌, ◌||◌, ◌==◌, ltb,
}
use sa_token_rust.Common.Int.{ℤ, is_positive, to_ℕ}
use sa_token_rust.Common.Text.{is_empty}
use sa_token_rust.Config.{SaTokenConfig}
use sa_token_rust.Keys.{login_type_default}

abbrev pub token_map_kick_out : String
token_map_kick_out = "-5"

abbrev pub token_map_be_replaced : String
token_map_be_replaced = "-4"

unfoldable pub is_kick_out_marker : String → Bool
is_kick_out_marker value = value == token_map_kick_out

unfoldable pub is_replaced_marker : String → Bool
is_replaced_marker value = value == token_map_be_replaced

unfoldable pub intern_login_type : String → String
unfolding is_empty
intern_login_type s =
    if is_empty s || s == login_type_default || s == "login" then login_type_default else s

pub record TokenInfo (Value : Type 0) : Type 0 where
  pub token : String
  pub login_id : String
  pub login_type : String
  pub create_time : ℕ
  pub last_active_time : ℕ
  pub expire_time : Option ℕ
  pub device : Option String
  pub extra_data : Option Value
  pub nonce : Option String
  pub refresh_token : Option String
  pub refresh_token_expire_time : Option ℕ
  pub active_timeout_override : Option ℤ

or_else : Option ℤ → ℤ → ℤ
or_else none d = d
or_else (some z) d = z

past : Option ℕ → ℕ → Bool
past none now = false
past (some expire_time) now = ltb expire_time now

module _ {Value : Type 0} where
  unfoldable pub new : String → String → ℕ → TokenInfo Value
  unfolding intern_login_type
  new token login_id now = record {
    token = token;
    login_id = login_id;
    login_type = intern_login_type login_type_default;
    create_time = now;
    last_active_time = now;
    expire_time = none;
    device = none;
    extra_data = none;
    nonce = none;
    refresh_token = none;
    refresh_token_expire_time = none;
    active_timeout_override = none;
  }

  unfoldable pub effective_active_timeout : TokenInfo Value → SaTokenConfig → ℤ
  unfolding or_else
  effective_active_timeout self config =
      if config.dynamic_active_timeout
      then or_else self.active_timeout_override config.active_timeout
      else config.active_timeout

  unfoldable pub is_expired : TokenInfo Value → ℕ → Bool
  unfolding past
  is_expired self now = past self.expire_time now

  unfoldable pub update_active_time : TokenInfo Value → ℕ → TokenInfo Value
  update_active_time self now = record self { last_active_time = now }

  -- Whole seconds since the last activity, none before it, are compared with a positive limit.
  unfoldable pub is_freeze : TokenInfo Value → ℤ → ℕ → Bool
  is_freeze self active_timeout now =
      if is_positive active_timeout
      then ltb (to_ℕ active_timeout) ((now - self.last_active_time) / 10 ^ 9)
      else false
