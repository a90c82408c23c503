-- ===== src/Auth/Request.antt =====
-- A login request: sa-token-core/src/service/login_request.rs.
use sa_token_rust.Common.{ℕ, String, Option, none, some, if◌then◌else◌}
use sa_token_rust.Common.Text.{is_empty}
use sa_token_rust.Keys.{login_type_default}

pub record LoginRequest (Value : Type 0) : Type 0 where
  pub login_id : String
  pub login_type : String
  pub device : Option String
  pub extra_data : Option Value
  pub nonce : Option String
  pub expire_time : Option ℕ
  pub preset_token : Option String

-- `filter(|d| !d.is_empty())`.
unfoldable pub non_empty : Option String → Option String
unfolding is_empty
non_empty none = none
non_empty (some d) = if is_empty d then none else some d

module _ {Value : Type 0} where
  unfoldable pub new : String → LoginRequest Value
  new login_id = record {
    login_id = login_id;
    login_type = login_type_default;
    device = none;
    extra_data = none;
    nonce = none;
    expire_time = none;
    preset_token = none;
  }

  unfoldable pub effective_login_type : LoginRequest Value → String
  unfolding is_empty
  effective_login_type self =
      if is_empty self.login_type then login_type_default else self.login_type

  unfoldable pub effective_device : LoginRequest Value → Option String
  unfolding non_empty
  effective_device self = non_empty self.device
