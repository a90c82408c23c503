-- ===== src/Auth/Accounts.antt =====
-- Whole accounts: logout by account and kick-out by account:
-- sa-token-core/src/service/auth_service.rs. The scan for the tokens of an account takes the number
-- of its pages as fuel.
use sa_token_rust.Common.{
  ℕ, zero, suc, String, Bool, false, Option, none, some, List, [], ◌∷◌, ◌++◌, ok, err,
  if◌then◌else◌, ◌&&◌, ◌==◌, eqb,
}
use sa_token_rust.Error.{SaTokenResult}
use sa_token_rust.Config.{LogoutMode, LogoutRange}
use sa_token_rust.Storage.{SaStorage}
use sa_token_rust.Keys.More.{token_scan_pattern, parse_token_from_key}
use sa_token_rust.Token.{TokenInfo}
use sa_token_rust.Session.{SaSession}
use sa_token_rust.TokenRepo.{get_login_mapping}
use sa_token_rust.TokenRepo.Bodies.{get_token_info, prune_index}
use sa_token_rust.SessionRepo.{ns, delete_by_ns}
use sa_token_rust.Auth.{AuthService, OnlineManager}
use sa_token_rust.Auth.Logout.{resolve_logout_identity, logout_internal, kick_out_by_token}
use sa_token_rust.Dao
use sa_token_rust.Dao.{
  Action, pure, throw, with_now, ◌>>=◌, ◌>>◌, try, Codec, set_object, from_secs, add_seconds,
}

module _ (st : SaStorage) {Value : Type 0} (tokens : Codec (TokenInfo Value))
    (sessions : Codec (SaSession Value)) where
  -- The body belongs to the account.
  of_account : String → String → SaTokenResult (Option (TokenInfo Value)) → Bool
  of_account login_type login_id (ok (some info)) =
      (info.login_id == login_id) && (info.login_type == login_type)
  of_account login_type login_id (ok none) = false
  of_account login_type login_id (err e) = false

  -- The token of a scanned key, if its body belongs to the account.
  tokens_of_key :
      AuthService st.State → String → String → Option String → ℕ → st.State → List String × st.State
  unfolding of_account
  tokens_of_key self login_type login_id none now s = ([], s)
  tokens_of_key self login_type login_id (some token) now s =
      let (found, s') = get_token_info st tokens self.token_repo token now s in
      (if of_account login_type login_id found then token ∷ [] else [], s')

  tokens_of_page :
      AuthService st.State → String → String → List String → ℕ → st.State → List String × st.State
  unfolding tokens_of_key
  tokens_of_page self login_type login_id [] now s = ([], s)
  tokens_of_page self login_type login_id (key ∷ keys) now s =
      let (found, s') =
        tokens_of_key self login_type login_id
          (parse_token_from_key self.dao.keys key (some login_type)) now s in
      let (others, s'') = tokens_of_page self login_type login_id keys now s' in
      (found ++ others, s'')

  -- The loop over the pages; a scan that fails ends it.
  unfoldable pub scan_tokens :
      AuthService st.State → String → String → ℕ → ℕ → ℕ → st.State → List String × st.State
  unfolding tokens_of_page
  scan_tokens self login_type login_id zero cursor now s = ([], s)
  scan_tokens self login_type login_id (suc pages) cursor now s =
      let (answer, s') =
        Dao.scan st (token_scan_pattern self.dao.keys (some login_type)) cursor 100 now s in
      elim answer [
        | err e ↦ ([], s')
        | ok page ↦
            let (found, s'') = tokens_of_page self login_type login_id page.keys now s' in
            if eqb page.next_cursor 0
            then (found, s'')
            else (let (others, s''') =
                  scan_tokens self login_type login_id pages page.next_cursor now s'' in
                (found ++ others, s'''))
      ]

  of_option : Option String → List String
  of_option none = []
  of_option (some t) = t ∷ []

  or_mapping : AuthService st.State → String → String → List String → Action st.State (List String)
  unfolding of_option
  or_mapping self login_type login_id [] = do
    one ← get_login_mapping st self.token_repo login_type login_id
    pure (of_option one)
  or_mapping self login_type login_id (t ∷ ts) = pure (t ∷ ts)

  or_scanned :
      AuthService st.State → ℕ → String → String → List String → Action st.State (List String)
  unfolding scan_tokens or_mapping
  or_scanned self pages login_type login_id (t ∷ ts) now s = (ok (t ∷ ts), s)
  or_scanned self pages login_type login_id [] now s =
      let (found, s') = scan_tokens self login_type login_id pages 0 now s in
      or_mapping self login_type login_id found now s'

  -- The tokens of an account: by the index, else by a scan, else by the login mapping.
  unfoldable pub collect_account_tokens :
      AuthService st.State → ℕ → String → String → Action st.State (List String)
  unfolding or_scanned
  collect_account_tokens self pages login_type login_id = do
    alive ← prune_index st tokens self.token_repo login_type login_id
    or_scanned self pages login_type login_id alive.0

  -- `logout_internal` on each token; failures are dropped.
  unfoldable pub each :
      (String → Action st.State (Unit {0})) → List String → Action st.State (Unit {0})
  each act [] now s = (ok tt, s)
  each act (t ∷ ts) now s = each act ts now (act t now s).1

  unfoldable pub logout_by_login_id :
      AuthService st.State → ℕ → String → String → Action st.State (Unit {0})
  unfolding each
  logout_by_login_id self pages login_type login_id = do
    found ← collect_account_tokens self pages login_type login_id
    each
        (λ t.
          logout_internal st tokens sessions self t LogoutMode.logout
            self.config.is_logout_keep_token_session)
        found

  logout_account :
      AuthService st.State
      → ℕ
      → String
      → Bool
      → Option (String × String)
      → Action st.State (Unit {0})
  logout_account self pages token keep (some (lt, lid)) = logout_by_login_id self pages lt lid
  logout_account self pages token keep none =
      logout_internal st tokens sessions self token LogoutMode.logout keep

  logout_range : AuthService st.State → ℕ → String → Bool → LogoutRange → Action st.State (Unit {0})
  unfolding logout_account
  logout_range self pages token keep LogoutRange.token =
      logout_internal st tokens sessions self token LogoutMode.logout keep
  logout_range self pages token keep LogoutRange.account = do
    who ← resolve_logout_identity st tokens sessions self token
    logout_account self pages token keep who

  unfoldable pub logout : AuthService st.State → ℕ → String → Bool → Action st.State (Unit {0})
  unfolding logout_range
  logout self pages token keep = logout_range self pages token keep self.config.logout_range

  notify_online : Option (OnlineManager st.State) → String → String → Action st.State (Unit {0})
  notify_online none login_type login_id = pure tt
  notify_online (some online) login_type login_id =
      try (online.mark_offline_all_with_type login_type login_id)
        (try (online.kick_out_notify login_id "Account kicked out") (pure tt))

  drop_session : AuthService st.State → SaTokenResult String → Action st.State (Unit {0})
  drop_session self (err e) = pure tt
  drop_session self (ok n) = try (delete_by_ns st sessions self.dao n) (pure tt)

  unfoldable pub kick_out : AuthService st.State → ℕ → String → String → Action st.State (Unit {0})
  unfolding notify_online each drop_session ns
  kick_out self pages login_type login_id = do
    notify_online self.outside.online login_type login_id
    found ← collect_account_tokens self pages login_type login_id
    each (λ t. kick_out_by_token st tokens sessions self t self.config.is_logout_keep_token_session)
        found
    drop_session self (ns login_type login_id)
