-- ===== src/Auth/Stages.antt =====
-- The staged writes of a login: sa-token-core/src/service/auth_service.rs. The
-- stages run on the storage's state with the compensator beside it, so that both are there when a
-- stage fails.
use sa_token_rust.Common.{String, Bool, true, false, Option, none, some, ok, if◌then◌else◌}
use sa_token_rust.Error.{account_replaced}
use sa_token_rust.Storage.{SaStorage}
use sa_token_rust.Keys.{login_token_index, token_id_mapping, token_info, token_session, login_token}
use sa_token_rust.Keys.More
use sa_token_rust.Keys.More.{session_by_ns}
use sa_token_rust.Token.{TokenInfo}
use sa_token_rust.Session.{SaSession, SaTerminalInfo, new_terminal, with_extra_data}
use sa_token_rust.TokenRepo.{
  append_index, save_token_id_mapping, save_login_mapping, cas_login_mapping,
}
use sa_token_rust.TokenRepo.Bodies.{save_token_info}
use sa_token_rust.SessionRepo.{
  key_err, snapshot_account_session, add_terminal_to, create_token_session,
}
use sa_token_rust.Refresh.{Libraries, RefreshTokenManager, store_with_extra}
use sa_token_rust.Nonce.{NonceRecord}
use sa_token_rust.Auth.{AuthService}
use sa_token_rust.Auth.Request.{LoginRequest, effective_device}
use sa_token_rust.Auth.Compensator.{
  LoginCompensator, on_fail_delete, on_fail_restore, on_fail_list_remove,
}
use sa_token_rust.Dao.{Action, pure, throw, with_now, lift, ◌>>=◌, ◌>>◌, Codec, default_ttl}

module _ (st : SaStorage) {Value : Type 0} (libs : Libraries Value)
    (sessions : Codec (SaSession Value)) (nonces : Codec NonceRecord) where
  abbrev pub Staged : Type 0 → Type 0
  Staged A = Action (st.State × LoginCompensator) A

  -- A write, and what is registered after it.
  abbrev pub stage : {A : Type 0} → Action st.State A → Staged A
  stage m now (s, c) = let (r, s') = m now s in (r, (s', c))

  abbrev pub register : (LoginCompensator → LoginCompensator) → Staged (Unit {0})
  register f now (s, c) = (ok tt, (s, f c))

  -- What undoes the change of the session.
  undo_session : AuthService st.State → String → Option String → LoginCompensator → LoginCompensator
  unfolding default_ttl
  undo_session self key (some old_raw) c = on_fail_restore key old_raw (default_ttl self.dao) c
  undo_session self key none c = on_fail_delete key c

  or_empty : Option String → String
  or_empty none = ""
  or_empty (some d) = d

  with_extra : SaTerminalInfo Value → Option Value → SaTerminalInfo Value
  unfolding with_extra_data
  with_extra t none = t
  with_extra t (some extra) = with_extra_data t extra

  unfoldable pub session_stage :
      AuthService st.State → String → LoginRequest Value → String → Staged (Unit {0})
  unfolding undo_session or_empty with_extra new_terminal session_by_ns key_err effective_device
  session_stage self n req token = do
    key ← lift (key_err (session_by_ns self.dao.keys n))
    old ← stage (snapshot_account_session st sessions self.dao n)
    register (undo_session self key old)
    with_now λ now. stage (
        add_terminal_to st sessions self.dao n
          (with_extra (new_terminal token (or_empty (effective_device req)) now) req.extra_data))

  token_session_stage : AuthService st.State → String → Bool → Staged (Unit {0})
  token_session_stage self token false = pure tt
  token_session_stage self token true = do
    stage (create_token_session st sessions self.dao token)
    register (on_fail_delete (token_session self.dao.keys token))

  refresh_stage :
      AuthService st.State
      → Option RefreshTokenManager
      → String
      → String
      → TokenInfo Value
      → Option String
      → Staged (Unit {0})
  refresh_stage self (some mgr) login_type login_id info (some rt) = do
    stage (store_with_extra st libs mgr rt info.token login_type login_id info.extra_data)
    register (on_fail_delete (More.refresh self.dao.keys rt))
  refresh_stage self mgr login_type login_id info rt = pure tt

  -- A lost swap is tried once more on an absent mapping.
  swap_absent : AuthService st.State → String → String → String → Bool → Staged (Unit {0})
  swap_absent self login_type login_id token true = pure tt
  swap_absent self login_type login_id token false = do
    swapped ← stage (cas_login_mapping st self.token_repo login_type login_id none token)
    if swapped then pure tt else throw account_replaced

  unfoldable pub commit_login_mapping :
      AuthService st.State → String → String → String → Option String → Staged (Unit {0})
  unfolding swap_absent
  commit_login_mapping self login_type login_id token mapping_before =
      (if self.config.is_concurrent
        then stage (save_login_mapping st self.token_repo login_type login_id token)
        else (do
          swapped ←
              stage (cas_login_mapping st self.token_repo login_type login_id mapping_before token)
          swap_absent self login_type login_id token swapped))
      >> register (on_fail_delete (login_token self.dao.keys login_type login_id))

  -- The stages after the session: the mapping of the token, its body, its session, the refresh
  -- token and the commit.
  unfoldable pub body_stages :
      AuthService st.State
      → String
      → String
      → TokenInfo Value
      → Option String
      → Option RefreshTokenManager
      → Staged (Unit {0})
  unfolding token_session_stage refresh_stage
  body_stages self login_type login_id info mapping_before refresh_mgr = do
    stage (save_token_id_mapping st self.token_repo info.token login_type login_id)
    register (on_fail_delete (token_id_mapping self.dao.keys info.token))
    stage (save_token_info st libs.token_codec self.token_repo info)
    register (on_fail_delete (token_info self.dao.keys info.token))
    token_session_stage self info.token self.config.right_now_create_token_session
    refresh_stage self refresh_mgr login_type login_id info info.refresh_token
    commit_login_mapping self login_type login_id info.token mapping_before

  unfoldable pub write_login_stages :
      AuthService st.State
      → String
      → String
      → String
      → LoginRequest Value
      → TokenInfo Value
      → Option String
      → Option RefreshTokenManager
      → Staged (Unit {0})
  unfolding session_stage body_stages
  write_login_stages self login_type login_id n req info mapping_before refresh_mgr = do
    stage (append_index st self.token_repo login_type login_id info.token)
    register (on_fail_list_remove (login_token_index self.dao.keys login_type login_id) info.token)
    session_stage self n req info.token
    body_stages self login_type login_id info mapping_before refresh_mgr
