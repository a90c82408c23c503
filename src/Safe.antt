-- ===== src/Safe.antt =====
-- Secondary authentication: sa-token-core/src/safe.rs. The token manager appears as the authentication
-- service that it holds.
use sa_token_rust.Common.{
  ℕ, String, Bool, true, false, Option, none, some, not, if◌then◌else◌, option_eq, eqb, ltb, ◌/◌,
  ◌^◌, ◌-◌,
}
use sa_token_rust.Common.Int.{ℤ, pos, negsuc, is_negative, to_ℕ}
use sa_token_rust.Common.Text.{is_empty}
use sa_token_rust.Error.{config_error, not_login, not_safe}
use sa_token_rust.Storage.{SaStorage}
use sa_token_rust.Event.Make
use sa_token_rust.Keys
use sa_token_rust.Token.{TokenInfo}
use sa_token_rust.Session.{SaSession}
use sa_token_rust.Auth.{AuthService}
use sa_token_rust.Auth.Validity.{is_valid}
use sa_token_rust.Dao
use sa_token_rust.Dao.{
  Action, pure, throw, with_now, ◌>>=◌, ◌>>◌, try, Codec, SaTokenDao, from_secs, set_string,
  get_string, delete,
}

abbrev pub default_safe_service : String
default_safe_service = ""

abbrev pub safe_auth_value : String
safe_auth_value = "ok"

-- No time is no end.
unfoldable pub safe_ttl : ℤ → Option ℕ
unfolding from_secs
safe_ttl safe_time = if eqb (to_ℕ safe_time) 0 then none else some (from_secs (to_ℕ safe_time))

-- `as i64` of a `u64`.
unfoldable pub as_i64 : ℕ → ℤ
as_i64 n = if ltb n (2 ^ 63) then pos n else negsuc (2 ^ 64 - 1 - n)

-- Whole seconds.
unfoldable pub seconds : Option ℕ → Option ℤ
unfolding as_i64
seconds none = none
seconds (some d) = some (as_i64 (d / 10 ^ 9))

module _ (st : SaStorage) {Value : Type 0} (tokens : Codec (TokenInfo Value))
    (sessions : Codec (SaSession Value)) where
  unfoldable pub open_safe : AuthService st.State → String → String → ℤ → Action st.State (Unit {0})
  unfolding safe_ttl
  open_safe self token service safe_time =
      if is_negative safe_time then throw (config_error "safe_time must be >= 0") else (do
        set_string st (Keys.safe self.dao.keys token service) safe_auth_value (safe_ttl safe_time)
        with_now λ now. try (self.outside.publish (Make.open_safe token service now)) (pure tt))

  -- The window of a token that is valid.
  window : AuthService st.State → String → String → Bool → Action st.State Bool
  window self token service false = pure false
  window self token service true = do
    value ← get_string st (Keys.safe self.dao.keys token service)
    pure (option_eq value (some safe_auth_value))

  -- The fuel is that of a logout which the check of an expired token may start.
  unfoldable pub is_safe : AuthService st.State → ℕ → String → String → Action st.State Bool
  unfolding window
  is_safe self pages token service = if is_empty token then pure false else (do
    valid ← is_valid st tokens sessions self pages token
    window self token service valid)

  refuse_unsafe : AuthService st.State → String → String → Bool → Action st.State (Unit {0})
  refuse_unsafe self token service false = throw (not_safe service)
  refuse_unsafe self token service true =
      with_now λ now. try (self.outside.publish (Make.safe_verify token service now)) (pure tt)

  unfoldable pub check_safe :
      AuthService st.State → ℕ → String → String → Action st.State (Unit {0})
  unfolding is_safe refuse_unsafe
  check_safe self pages token service = do
    valid ← is_valid st tokens sessions self pages token
    if not valid
        then throw not_login
        else (do opened ← is_safe self pages token service; refuse_unsafe self token service opened)

  unfoldable pub close_safe : AuthService st.State → String → String → Action st.State (Unit {0})
  close_safe self token service = do
    delete st (Keys.safe self.dao.keys token service)
    with_now λ now. try (self.outside.publish (Make.close_safe token service now)) (pure tt)

  unfoldable pub get_safe_time : AuthService st.State → String → String → Action st.State (Option ℤ)
  unfolding seconds
  get_safe_time self token service = do
    left ← Dao.ttl st (Keys.safe self.dao.keys token service)
    pure (seconds left)
