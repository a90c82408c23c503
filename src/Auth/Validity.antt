-- ===== src/Auth/Validity.antt =====
-- The validation of a token, its renewal and the limit on the number of logins:
-- sa-token-core/src/service/auth_service.rs.
use sa_token_rust.Common.{
  ℕ, ◌-◌, String, Bool, true, false, none, some, ok, err, not, if◌then◌else◌, ◌&&◌, leb, length,
  take,
}
use sa_token_rust.Common.Int.{ℤ, is_positive, to_ℕ}
use sa_token_rust.Error.{SaTokenResult, token_expired}
use sa_token_rust.Config.{LogoutMode}
use sa_token_rust.Storage.{SaStorage}
use sa_token_rust.Event.{with_login_type}
use sa_token_rust.Event.Make
use sa_token_rust.Keys.{token_info}
use sa_token_rust.Token.{TokenInfo, update_active_time}
use sa_token_rust.Session.{SaSession}
use sa_token_rust.TokenRepo.{remove_index}
use sa_token_rust.TokenRepo.Bodies.{prune_index, load_valid_token_info, load_token_info_no_renew}
use sa_token_rust.Auth.{AuthService}
use sa_token_rust.Auth.Logout.{kick_out_by_token, logout_replaced}
use sa_token_rust.Dao.{
  Action, pure, throw, with_now, ◌>>=◌, ◌>>◌, try, Codec, set_object, from_secs, add_seconds,
}
use sa_token_rust.Auth.Accounts.{logout, each}

module _ (st : SaStorage) {Value : Type 0} (tokens : Codec (TokenInfo Value))
    (sessions : Codec (SaSession Value)) where
  -- An expired token is logged out, whatever that gives.
  logout_expired :
      AuthService st.State
      → ℕ
      → String
      → SaTokenResult (TokenInfo Value)
      → Action st.State (TokenInfo Value)
  logout_expired self pages token (err token_expired) =
      try (logout st tokens sessions self pages token self.config.is_logout_keep_token_session)
        (throw token_expired)
  logout_expired self pages token (ok info) = pure info
  logout_expired self pages token (err other) = throw other

  unfoldable pub get_valid_token_info :
      AuthService st.State → ℕ → String → Action st.State (TokenInfo Value)
  unfolding logout_expired
  get_valid_token_info self pages token now s =
      let (r, s') = load_valid_token_info st tokens self.token_repo token now s in
      logout_expired self pages token r now s'

  abbrev pub is_ok {ℓ} : {A : Type ℓ} → SaTokenResult A → Bool
  is_ok (ok a) = true
  is_ok (err e) = false

  unfoldable pub is_valid : AuthService st.State → ℕ → String → Action st.State Bool
  is_valid self pages token now s =
      let (r, s') = get_valid_token_info self pages token now s in (ok (is_ok r), s')

  -- The body with a new expiry.
  prolonged : TokenInfo Value → ℤ → ℕ → TokenInfo Value
  unfolding update_active_time add_seconds
  prolonged info seconds now = record (update_active_time info now) {
    expire_time = if is_positive seconds then some (add_seconds now seconds) else none;
  }

  unfoldable pub renew_timeout : AuthService st.State → String → ℤ → Action st.State (Unit {0})
  unfolding prolonged from_secs
  renew_timeout self token seconds = do
    info ← load_token_info_no_renew st tokens self.token_repo token
    with_now λ now. do
      set_object st tokens (token_info self.dao.keys token) (prolonged info seconds now)
          (if is_positive seconds then some (from_secs (to_ℕ seconds)) else none)
      try
          (self.outside.publish
            (with_login_type (Make.renew_timeout info.login_id token seconds now) info.login_type))
          (pure tt)

  evict_by : AuthService st.State → ℕ → String → LogoutMode → Action st.State (Unit {0})
  evict_by self pages token LogoutMode.logout =
      logout st tokens sessions self pages token self.config.is_logout_keep_token_session
  evict_by self pages token LogoutMode.kick_out =
      kick_out_by_token st tokens sessions self token self.config.is_logout_keep_token_session
  evict_by self pages token LogoutMode.replaced = logout_replaced st tokens sessions self token

  evict : AuthService st.State → ℕ → String → String → String → Action st.State (Unit {0})
  unfolding evict_by
  evict self pages login_type login_id token =
      try (remove_index st self.token_repo login_type login_id token)
        (evict_by self pages token self.config.overflow_logout_mode)

  unfoldable pub enforce_max_login_count :
      AuthService st.State → ℕ → String → String → Action st.State (Unit {0})
  unfolding evict each
  enforce_max_login_count self pages login_type login_id =
      if not (is_positive self.config.max_login_count && self.config.is_concurrent)
      then pure tt
      else (do
        alive ← prune_index st tokens self.token_repo login_type login_id
        if leb (length alive.0) (to_ℕ self.config.max_login_count)
            then pure tt
            else each st tokens sessions (evict self pages login_type login_id)
                (take (length alive.0 - to_ℕ self.config.max_login_count) alive.0))
