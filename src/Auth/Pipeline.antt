-- ===== src/Auth/Pipeline.antt =====
-- The whole login, with its rollback and what follows the commit:
-- sa-token-core/src/service/auth_service.rs.
use sa_token_rust.Common.{ℕ, String, Option, none, some, ok, err, if◌then◌else◌}
use sa_token_rust.Storage.{SaStorage}
use sa_token_rust.Event.{with_login_type}
use sa_token_rust.Event.Make
use sa_token_rust.Token.{TokenInfo}
use sa_token_rust.Session.{SaSession}
use sa_token_rust.TokenRepo.{get_login_mapping}
use sa_token_rust.SessionRepo.{ns}
use sa_token_rust.Refresh.{Libraries, RefreshTokenManager, generate, refresh_end}
use sa_token_rust.Nonce.{NonceRecord}
use sa_token_rust.Auth.{AuthService, OnlineManager, DistributedSessionManager}
use sa_token_rust.Auth.Request.{LoginRequest, effective_device, effective_login_type}
use sa_token_rust.Auth.Compensator.{LoginCompensator, rollback}
use sa_token_rust.Dao.{Action, pure, with_now, lift, ◌>>=◌, ◌>>◌, try, Codec}
use sa_token_rust.Auth.Validity.{enforce_max_login_count}
use sa_token_rust.Auth.Login.{
  check_banned, nonce_step, shared_token, build_token_info, handle_replaced_on_login,
}
use sa_token_rust.Auth.Stages.{Staged, stage, write_login_stages}

module _ (st : SaStorage) {Value : Type 0} (libs : Libraries Value)
    (sessions : Codec (SaSession Value)) (nonces : Codec NonceRecord) where
  -- A failure is followed by the rollback of what is registered.
  unfoldable pub or_rollback :
      {A : Type 0} → LoginCompensator → Staged st libs sessions nonces A → Action st.State A
  unfolding rollback
  or_rollback c m now s =
      let (r, (s', c')) = m now (s, c) in
      elim r [ ok a ↦ (ok a, s') | err e ↦ (err e, (rollback st c' now s').1) ]

  -- `RefreshTokenManager::new` if refresh tokens are on.
  unfoldable pub manager_of : AuthService st.State → Option RefreshTokenManager
  manager_of self =
      if self.config.enable_refresh_token
      then some (record { dao = self.dao; token_repo = self.token_repo; config = self.config })
      else none

  unfoldable pub with_refresh :
      AuthService st.State
      → String
      → Option RefreshTokenManager
      → TokenInfo Value
      → ℕ
      → TokenInfo Value
  unfolding generate refresh_end
  with_refresh self login_id none info now = info
  with_refresh self login_id (some mgr) info now = record info {
    refresh_token = some (generate st libs login_id now);
    refresh_token_expire_time = refresh_end st libs self.config now;
  }

  mark_online :
      Option (OnlineManager st.State)
      → String
      → String
      → String
      → String
      → Action st.State (Unit {0})
  mark_online none login_type login_id token device = pure tt
  mark_online (some online) login_type login_id token device =
      try (online.mark_online login_type login_id token device) (pure tt)

  create_distributed :
      Option (DistributedSessionManager st.State) → String → String → Action st.State (Unit {0})
  create_distributed none login_id token = pure tt
  create_distributed (some dm) login_id token = try (dm.create_session login_id token) (pure tt)

  or_unknown : Option String → String
  or_unknown none = "unknown"
  or_unknown (some d) = d

  -- What follows the commit: no failure of it undoes the login.
  unfoldable pub after_commit :
      AuthService st.State
      → ℕ
      → LoginRequest Value
      → String
      → String
      → String
      → Action st.State String
  unfolding mark_online create_distributed or_unknown effective_device
  after_commit self pages req login_type login_id token =
      try (enforce_max_login_count st libs.token_codec sessions self pages login_type login_id) (do
        mark_online self.outside.online login_type login_id token
            (or_unknown (effective_device req))
        create_distributed self.outside.distributed login_id token
        with_now λ now.
            try (self.outside.publish (with_login_type (Make.login login_id token now) login_type))
              (pure token))

  -- The replacement of other logins, where only one is allowed.
  unfoldable pub replace_others :
      AuthService st.State
      → LoginRequest Value
      → String
      → String
      → String
      → Staged st libs sessions nonces (Unit {0})
  replace_others self req login_type n token =
      if self.config.is_concurrent
      then pure tt
      else stage st libs sessions nonces (
          handle_replaced_on_login st libs sessions nonces self login_type req.login_id n req token)

  -- The stages with their rollback, and what follows them.
  unfoldable pub write_and_finish :
      AuthService st.State
      → ℕ
      → LoginRequest Value
      → String
      → String
      → LoginCompensator
      → TokenInfo Value
      → Option String
      → ℕ
      → Action st.State String
  unfolding manager_of with_refresh after_commit or_rollback
  write_and_finish self pages req login_type n c info mapping_before now = do
    or_rollback c (
        write_login_stages st libs sessions nonces self login_type req.login_id n req
          (with_refresh self req.login_id (manager_of self) info now) mapping_before
          (manager_of self))
    after_commit self pages req login_type req.login_id info.token

  -- A login with a new token.
  unfoldable pub login_new :
      AuthService st.State
      → ℕ
      → LoginRequest Value
      → String
      → String
      → LoginCompensator
      → Action st.State String
  unfolding or_rollback replace_others
  login_new self pages req login_type n c = do
    info ← build_token_info st libs sessions nonces self req login_type
    mapping_before ← get_login_mapping st self.token_repo login_type req.login_id
    or_rollback c (replace_others self req login_type n info.token)
    with_now (write_and_finish self pages req login_type n c info mapping_before)

  unfoldable pub shared_or_new :
      AuthService st.State
      → ℕ
      → LoginRequest Value
      → String
      → String
      → LoginCompensator
      → Option String
      → Action st.State String
  shared_or_new self pages req login_type n c (some existing) = pure existing
  shared_or_new self pages req login_type n c none = login_new self pages req login_type n c

  unfoldable pub login : AuthService st.State → ℕ → LoginRequest Value → Action st.State String
  unfolding shared_or_new effective_login_type ns
  login self pages req = do
    n ← lift (ns (effective_login_type req) req.login_id)
    check_banned st libs sessions nonces self (effective_login_type req) req.login_id
    c ← nonce_step st libs sessions nonces self self.config.enable_nonce req.nonce req.login_id
    shared ← shared_token st libs sessions nonces self (effective_login_type req) req.login_id
    shared_or_new self pages req (effective_login_type req) n c shared
