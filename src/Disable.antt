-- ===== src/Disable.antt =====
-- Bans of accounts: sa-token-core/src/disable.rs, with `is_disabled` of
-- sa-token-core/src/service/authz_service.rs. The application's own source of bans is the parameter
-- `custom_iface`. The token manager appears as the authentication service that it holds.
use sa_token_rust.Common.{
  ℕ, String, Bool, true, false, Option, none, some, List, [], ◌∷◌, if◌then◌else◌, eqb, leb,
}
use sa_token_rust.Common.Int.{ℤ, pos, negsuc, is_negative, to_ℕ}
use sa_token_rust.Common.Text.{is_empty, trim, ◌<>◌}
use sa_token_rust.Common.Decimal.{parse, print}
use sa_token_rust.Error.{config_error, storage_error, account_banned}
use sa_token_rust.Storage.{SaStorage}
use sa_token_rust.Event.{with_login_type}
use sa_token_rust.Event.Make
use sa_token_rust.Keys
use sa_token_rust.Keys.{login_type_default}
use sa_token_rust.Auth.{AuthService}
use sa_token_rust.Auth.Login.{default_disable_service}
use sa_token_rust.Dao.{
  Action, pure, throw, ok_or, with_now, ◌>>=◌, ◌>>◌, try, from_secs, set_string, get_string, delete,
}

-- `NOT_DISABLE_LEVEL`, which is -2.
abbrev pub not_disable_level : ℤ
not_disable_level = negsuc 1

abbrev pub default_disable_level : ℤ
default_disable_level = pos 1

unfoldable pub is_not_disabled : ℤ → Bool
is_not_disabled (pos n) = false
is_not_disabled (negsuc n) = eqb n 1

-- `x >= y`.
unfoldable pub at_least : ℤ → ℤ → Bool
at_least (pos x) (pos y) = leb y x
at_least (pos x) (negsuc y) = true
at_least (negsuc x) (pos y) = false
at_least (negsuc x) (negsuc y) = leb x y

unfoldable pub disable_ttl : ℤ → Option ℕ
unfolding from_secs
disable_ttl time = if is_negative time then none else some (from_secs (to_ℕ time))

module _ (st : SaStorage)
    (custom_iface : Option (String → String → Action st.State (Option ℤ))) where
  unfoldable pub disable_level_with_type :
      AuthService st.State → String → String → String → ℤ → ℤ → Action st.State (Unit {0})
  unfolding disable_ttl is_empty trim print
  disable_level_with_type self login_type login_id service level time =
      if is_empty (trim login_id)
      then throw (config_error "login_id is required for disable")
      else if is_empty (trim service)
      then throw (config_error "service is required for disable")
      else if is_negative level
      then throw (config_error "disable level must be >= 1 (0 allowed)")
      else (do
        set_string st (Keys.disable self.dao.keys login_type login_id service) (print level)
            (disable_ttl time)
        with_now λ now.
            try
              (self.outside.publish (
                with_login_type
                  (Make.banned (Keys.account_ns login_type login_id) service level now) login_type))
              (pure tt))

  unfoldable pub disable_with_type :
      AuthService st.State → String → String → ℤ → Action st.State (Unit {0})
  disable_with_type self login_type login_id =
      disable_level_with_type self login_type login_id default_disable_service default_disable_level

  unfoldable pub is_disabled :
      Option (String → String → Action st.State (Option ℤ))
      → String
      → String
      → Action st.State (Option ℤ)
  is_disabled none login_id service = pure none
  is_disabled (some custom) login_id service = custom login_id service

  or_not_disabled : Option ℤ → ℤ
  or_not_disabled none = not_disable_level
  or_not_disabled (some level) = level

  level_of : String → String → String → Option String → Action st.State ℤ
  unfolding is_disabled or_not_disabled parse
  level_of key login_id service (some v) =
      ok_or (storage_error ("invalid disable level for key " <> key)) (parse 31 v)
  level_of key login_id service none = do
    level ← is_disabled custom_iface login_id service
    pure (or_not_disabled level)

  unfoldable pub get_disable_level_with_type :
      AuthService st.State → String → String → String → Action st.State ℤ
  unfolding level_of
  get_disable_level_with_type self login_type login_id service = do
    value ← get_string st (Keys.disable self.dao.keys login_type login_id service)
    level_of (Keys.disable self.dao.keys login_type login_id service) login_id service value

  unfoldable pub is_disable_level_with_type :
      AuthService st.State → String → String → String → ℤ → Action st.State Bool
  unfolding is_not_disabled at_least
  is_disable_level_with_type self login_type login_id service level = do
    found ← get_disable_level_with_type self login_type login_id service
    pure (if is_not_disabled found then false else at_least found level)

  unfoldable pub check_disable_level_with_type :
      AuthService st.State → String → String → String → ℤ → Action st.State (Unit {0})
  unfolding is_not_disabled at_least print
  check_disable_level_with_type self login_type login_id service level = do
    found ← get_disable_level_with_type self login_type login_id service
    if is_not_disabled found
        then pure tt
        else if at_least found level
        then throw (account_banned ("service=" <> service <> " level=" <> print found))
        else pure tt

  unfoldable pub check_disable_services_with_type :
      AuthService st.State → String → String → List String → ℤ → Action st.State (Unit {0})
  unfolding check_disable_level_with_type
  check_disable_services_with_type self login_type login_id [] level = pure tt
  check_disable_services_with_type self login_type login_id (service ∷ services) level = do
    check_disable_level_with_type self login_type login_id service level
    check_disable_services_with_type self login_type login_id services level

  unfoldable pub untie_disable_with_type :
      AuthService st.State → String → String → String → Action st.State (Unit {0})
  untie_disable_with_type self login_type login_id service = do
    delete st (Keys.disable self.dao.keys login_type login_id service)
    with_now λ now.
        try
          (self.outside.publish (
            with_login_type (Make.unbanned (Keys.account_ns login_type login_id) service now)
              login_type))
          (pure tt)

  -- For the default login type.
  unfoldable pub disable_level :
      AuthService st.State → String → String → ℤ → ℤ → Action st.State (Unit {0})
  disable_level self = disable_level_with_type self login_type_default

  unfoldable pub disable : AuthService st.State → String → ℤ → Action st.State (Unit {0})
  disable self = disable_with_type self login_type_default

  unfoldable pub get_disable_level : AuthService st.State → String → String → Action st.State ℤ
  get_disable_level self = get_disable_level_with_type self login_type_default

  unfoldable pub is_disable_level :
      AuthService st.State → String → String → ℤ → Action st.State Bool
  is_disable_level self = is_disable_level_with_type self login_type_default

  unfoldable pub check_disable_level :
      AuthService st.State → String → String → ℤ → Action st.State (Unit {0})
  check_disable_level self = check_disable_level_with_type self login_type_default

  unfoldable pub check_disable_services :
      AuthService st.State → String → List String → ℤ → Action st.State (Unit {0})
  check_disable_services self = check_disable_services_with_type self login_type_default

  unfoldable pub untie_disable : AuthService st.State → String → String → Action st.State (Unit {0})
  untie_disable self = untie_disable_with_type self login_type_default
