-- ===== src/Auth/JavaLayout.antt =====
-- The four-segment key layout and login: sa-token-core/src/service/auth_service.rs, with
-- `session_by_ns` of sa-token-core/src/keys.rs.
use sa_token_rust.Common.{
  ℕ, ◌≡◌, String, false, Option, none, err, Result-cases, inl, inr, arith, sym,
}
use mathlib.Core.Path.{subst}
use sa_token_rust.Error.{config_error}
use sa_token_rust.Storage.{SaStorage}
use sa_token_rust.Session.{SaSession}
use sa_token_rust.Token.{TokenInfo}
use sa_token_rust.Keys.{KeyError, SaKeys, java_four_segment, namespaced_id_unsupported_by_layout}
use sa_token_rust.Keys.More.{session_by_ns, build_from_ns, from_ns, to_string}
use sa_token_rust.Keys.{login_token_index}
use sa_token_rust.TokenRepo.{append_index, get_login_mapping}
use sa_token_rust.SessionRepo.{key_err, ns}
use sa_token_rust.Refresh.{Libraries, RefreshTokenManager}
use sa_token_rust.Nonce.{NonceRecord}
use sa_token_rust.Auth.{AuthService}
use sa_token_rust.Auth.Request.{LoginRequest, effective_login_type}
use sa_token_rust.Auth.Compensator.{LoginCompensator, on_fail_list_remove}
use sa_token_rust.Auth.Login.{shared_token, build_token_info, check_banned, nonce_step}
use sa_token_rust.Auth.Stages.{
  body_stages, Staged, stage, register, session_stage, write_login_stages,
}
use sa_token_rust.Auth.Pipeline.{
  replace_others, write_and_finish, with_refresh, manager_of, after_commit, or_rollback, login_new,
  shared_or_new, login,
}
use sa_token_rust.Dao.{Codec, Action, pure, lift, with_now, ◌>>=◌}
use sa_token_rust.Dao.Never.{
  Never, lift_err-Never, with_now-Never, bind-Never_first, bind-Never, then-Never_first, then-Never,
}

session_by_ns-java :
    (keys : SaKeys) (n : String)
    → keys.layout ≡ java_four_segment
    → (e : KeyError) × (session_by_ns keys n ≡ err e)
unfolding session_by_ns build_from_ns from_ns
session_by_ns-java keys n java =
    (namespaced_id_unsupported_by_layout "SaKeys::session_by_ns", rw (java, from_ns))

module _ (st : SaStorage) {Value : Type 0} (libs : Libraries Value)
    (sessions : Codec (SaSession Value)) (nonces : Codec NonceRecord) (self : AuthService st.State)
    (java : self.dao.keys.layout ≡ java_four_segment) where
  key-Never :
      (n : String)
      → Never (lift {S = st.State × LoginCompensator} (key_err (session_by_ns self.dao.keys n)))
  unfolding key_err
  key-Never n =
      let (e, refused) = session_by_ns-java self.dao.keys n java in
      subst (λ r. Never (lift {S = st.State × LoginCompensator} (key_err r))) (sym refused)
        (lift_err-Never (config_error (to_string e)))

  session_stage-Never :
      (n : String) (req : LoginRequest Value) (token : String)
      → Never (session_stage st libs sessions nonces self n req token)
  unfolding session_stage
  session_stage-Never n req token = bind-Never_first _ _ (key-Never n)

  write_login_stages-Never :
      (lt lid n : String) (req : LoginRequest Value) (info : TokenInfo Value)
      (before : Option String) (mgr : Option RefreshTokenManager)
      → Never (write_login_stages st libs sessions nonces self lt lid n req info before mgr)
  unfolding write_login_stages
  write_login_stages-Never lt lid n req info before mgr =
      then-Never (stage st libs sessions nonces (append_index st self.token_repo lt lid info.token))
        _
        (then-Never
          (register st libs sessions nonces
            (on_fail_list_remove (login_token_index self.dao.keys lt lid) info.token))
          _
          (then-Never_first (session_stage st libs sessions nonces self n req info.token)
            (body_stages st libs sessions nonces self lt lid info before mgr)
            (session_stage-Never n req info.token)))

  or_rollback-Never :
      {A : Type 0} (c : LoginCompensator) (m : Staged st libs sessions nonces A)
      → Never m
      → Never (or_rollback st libs sessions nonces c m)
  unfolding or_rollback
  or_rollback-Never c m fails = record {
    never = λ now s a h. elim (Result-cases (m now (s, c)).0) [
      | inl (b, e) ↦ fails.never now (s, c) b e
      | inr (x, e) ↦ ground arith
    ];
  }

  login_new-Never :
      (pages : ℕ) (req : LoginRequest Value) (lt n : String) (c : LoginCompensator)
      → Never (login_new st libs sessions nonces self pages req lt n c)
  unfolding login_new write_and_finish
  login_new-Never pages req lt n c =
      bind-Never (build_token_info st libs sessions nonces self req lt) _ λ info.
        bind-Never (get_login_mapping st self.token_repo lt req.login_id) _ λ before.
          then-Never
            (or_rollback st libs sessions nonces c
              (replace_others st libs sessions nonces self req lt n info.token))
            (with_now (write_and_finish st libs sessions nonces self pages req lt n c info before))
            (with_now-Never _ λ now.
              then-Never_first
                (or_rollback st libs sessions nonces c (
                  write_login_stages st libs sessions nonces self lt req.login_id n req
                    (with_refresh st libs sessions nonces self req.login_id
                      (manager_of st libs sessions nonces self) info now)
                    before (manager_of st libs sessions nonces self)))
                (after_commit st libs sessions nonces self pages req lt req.login_id info.token)
                (or_rollback-Never c _ (write_login_stages-Never _ _ _ _ _ _ _)))

  as_new :
      (pages : ℕ) (req : LoginRequest Value) (lt n : String) (c : LoginCompensator)
      → Never (pure none >>= shared_or_new st libs sessions nonces self pages req lt n c)
  unfolding shared_or_new
  as_new pages req lt n c = record { never = (login_new-Never pages req lt n c).never }

  not_shared :
      (lt lid : String)
      → self.config.is_share ≡ false
      → shared_token st libs sessions nonces self lt lid ≡ pure none
  unfolding shared_token
  not_shared lt lid e = rw e

  -- Under the four-segment key layout, and without the sharing of tokens, no login returns a token:
  -- the session key of a namespaced account is refused in that layout.
  pub login-Never :
      (pages : ℕ) (req : LoginRequest Value)
      → self.config.is_share ≡ false
      → Never (login st libs sessions nonces self pages req)
  unfolding login shared_or_new
  login-Never pages req alone =
      let lt = effective_login_type req in
      let lid = req.login_id in
      bind-Never (lift (ns lt lid)) _ λ n.
        then-Never (check_banned st libs sessions nonces self lt lid)
          (nonce_step st libs sessions nonces self self.config.enable_nonce req.nonce lid >>= λ c.
            shared_token st libs sessions nonces self lt lid
            >>= shared_or_new st libs sessions nonces self pages req lt n c)
          (bind-Never
            (nonce_step st libs sessions nonces self self.config.enable_nonce req.nonce lid) _
            λ c.
              subst
                (λ (m : Action st.State (Option String)).
                  Never (m >>= shared_or_new st libs sessions nonces self pages req lt n c))
                (sym (not_shared lt lid alone)) (as_new pages req lt n c))
