-- ===== src/Auth/Logout.antt =====
-- Logout, kick-out and replacement: sa-token-core/src/service/auth_service.rs. serde is the two
-- parameters `tokens` and `sessions`. The scan that looks for the tokens of an account takes the
-- number of pages as fuel.
use sa_token_rust.Common.{
  ℕ, String, Bool, true, false, Option, none, some, ok, err, not, if◌then◌else◌, ◌&&◌, eqb,
}
use sa_token_rust.Error.{SaTokenResult}
use sa_token_rust.Config.{LogoutMode}
use sa_token_rust.Storage.{SaStorage}
use sa_token_rust.Event.{SaTokenEvent, with_login_type}
use sa_token_rust.Event.Make
use sa_token_rust.Token.{TokenInfo, token_map_kick_out, token_map_be_replaced}
use sa_token_rust.Session.{SaSession}
use sa_token_rust.TokenRepo.{
  TokenIdMapping, identity, kicked_out, replaced, delete_token_info, mark_token_id,
  delete_token_id_mapping, remove_index, cas_delete_login_mapping,
}
use sa_token_rust.TokenRepo.Bodies.{get_token_info, get_token_id_mapping}
use sa_token_rust.SessionRepo.{
  ns, delete_token_session, remove_terminal_from, count_terminals, delete_by_ns,
}
use sa_token_rust.Auth.{AuthService, OnlineManager, DistributedSessionManager}
use sa_token_rust.Dao.{Action, pure, with_now, ◌>>=◌, ◌>>◌, try, Codec}

unfoldable pub is_logout : LogoutMode → Bool
is_logout LogoutMode.logout = true
is_logout LogoutMode.kick_out = false
is_logout LogoutMode.replaced = false

unfoldable pub is_replaced : LogoutMode → Bool
is_replaced LogoutMode.logout = false
is_replaced LogoutMode.kick_out = false
is_replaced LogoutMode.replaced = true

module _ (st : SaStorage) {Value : Type 0} (tokens : Codec (TokenInfo Value))
    (sessions : Codec (SaSession Value)) where
  -- The identity behind a mapping that is no marker.
  of_mapping : Option TokenIdMapping → Option (String × String)
  of_mapping none = none
  of_mapping (some (identity lt lid)) = some (lt, lid)
  of_mapping (some kicked_out) = none
  of_mapping (some replaced) = none

  identity_of :
      AuthService st.State
      → String
      → Option (TokenInfo Value)
      → Action st.State (Option (String × String))
  unfolding of_mapping
  identity_of self token (some info) = pure (some (info.login_type, info.login_id))
  identity_of self token none = do
    mapping ← get_token_id_mapping st tokens self.token_repo token
    pure (of_mapping mapping)

  -- The login type and the login id of a token, by its body or else by its mapping.
  unfoldable pub resolve_logout_identity :
      AuthService st.State → String → Action st.State (Option (String × String))
  unfolding identity_of
  resolve_logout_identity self token = do
    body ← get_token_info st tokens self.token_repo token
    identity_of self token body

  -- What the mode does to the mapping of the token.
  unfoldable pub mark : AuthService st.State → LogoutMode → String → Action st.State (Unit {0})
  mark self LogoutMode.logout token = delete_token_id_mapping st self.token_repo token
  mark self LogoutMode.kick_out token = mark_token_id st self.token_repo token token_map_kick_out
  mark self LogoutMode.replaced token = mark_token_id st self.token_repo token token_map_be_replaced

  -- `unwrap_or`.
  unfoldable pub or_value : {A : Type 0} → A → SaTokenResult A → A
  or_value d (ok a) = a
  or_value d (err e) = d

  -- The session goes with its last terminal, unless the token was replaced.
  unfoldable pub drop_empty :
      AuthService st.State → LogoutMode → String → Bool → Action st.State (Unit {0})
  unfolding or_value is_replaced
  drop_empty self mode n false now s = (ok tt, s)
  drop_empty self mode n true now s =
      let (count, s') = count_terminals st sessions self.dao n now s in
      if eqb (or_value 0 count) 0 && not (is_replaced mode)
      then (ok tt, (delete_by_ns st sessions self.dao n now s').1)
      else (ok tt, s')

  unfoldable pub drop_terminal :
      AuthService st.State → LogoutMode → String → SaTokenResult String → Action st.State (Unit {0})
  unfolding drop_empty or_value
  drop_terminal self mode token (err e) now s = (ok tt, s)
  drop_terminal self mode token (ok n) now s =
      let (removed, s') = remove_terminal_from st sessions self.dao n token now s in
      drop_empty self mode n (or_value false removed) now s'

  unfoldable pub clear_mapping :
      AuthService st.State → LogoutMode → String → String → String → Action st.State (Unit {0})
  unfolding is_logout
  clear_mapping self mode lt lid token =
      if is_logout mode
      then try (cas_delete_login_mapping st self.token_repo lt lid token) (pure tt)
      else pure tt

  unfoldable pub drop_distributed :
      Option (DistributedSessionManager st.State) → String → String → Action st.State (Unit {0})
  drop_distributed none lid token = pure tt
  drop_distributed (some dm) lid token = try (dm.delete_sessions_by_token lid token) (pure tt)

  unfoldable pub mark_offline :
      Option (OnlineManager st.State) → String → String → String → Action st.State (Unit {0})
  mark_offline none lt lid token = pure tt
  mark_offline (some online) lt lid token =
      try (online.mark_offline_with_type lt lid token) (pure tt)

  unfoldable pub logout_event : LogoutMode → String → String → ℕ → SaTokenEvent
  logout_event LogoutMode.logout lid token now = Make.logout lid token now
  logout_event LogoutMode.kick_out lid token now = Make.kick_out lid token now
  logout_event LogoutMode.replaced lid token now = Make.replaced lid token now

  -- The clean-up of the account: every failure is dropped.
  unfoldable pub clean_up :
      AuthService st.State
      → LogoutMode
      → String
      → Option (String × String)
      → Action st.State (Unit {0})
  unfolding drop_terminal clear_mapping drop_distributed mark_offline logout_event ns
  clean_up self mode token none = pure tt
  clean_up self mode token (some (lt, lid)) = try (remove_index st self.token_repo lt lid token) (do
    drop_terminal self mode token (ns lt lid)
    clear_mapping self mode lt lid token
    drop_distributed self.outside.distributed lid token
    mark_offline self.outside.online lt lid token
    with_now λ now.
        try (self.outside.publish (with_login_type (logout_event mode lid token now) lt)) (pure tt))

  unfoldable pub drop_token_session :
      AuthService st.State → String → Bool → Action st.State (Unit {0})
  drop_token_session self token true = pure tt
  drop_token_session self token false =
      try (delete_token_session st sessions self.dao token) (pure tt)

  unfoldable pub logout_internal :
      AuthService st.State → String → LogoutMode → Bool → Action st.State (Unit {0})
  unfolding drop_token_session
  logout_internal self token mode keep_token_session = do
    who ← resolve_logout_identity self token
    delete_token_info st self.token_repo token
    drop_token_session self token keep_token_session
    mark self mode token
    clean_up self mode token who

  unfoldable pub kick_out_by_token :
      AuthService st.State → String → Bool → Action st.State (Unit {0})
  kick_out_by_token self token keep = logout_internal self token LogoutMode.kick_out keep

  unfoldable pub logout_replaced : AuthService st.State → String → Action st.State (Unit {0})
  logout_replaced self token =
      logout_internal self token LogoutMode.replaced self.config.is_logout_keep_token_session
