-- ===== src/Auth/Login.antt =====
-- Login: sa-token-core/src/service/auth_service.rs. `Libraries` holds what the code takes from other
-- crates and the token generator; `sessions` and `nonces` are serde. `pages` bounds the scan that
-- an overflow of logins may start.
use sa_token_rust.Common.{
  ℕ, String, Bool, true, false, Option, none, some, List, [], ◌∷◌, ◌++◌, map, ok, not,
  if◌then◌else◌, ◌==◌, is_some, any, retain,
}
use sa_token_rust.Common.Int.{ℤ, pos, negsuc, is_positive, to_ℕ}
use sa_token_rust.Common.Text.{◌<>◌}
use sa_token_rust.Common.Decimal.{parse, print}
use sa_token_rust.Error.{SaTokenResult, account_banned, account_replaced}
use sa_token_rust.Config.{SaTokenConfig, dao_config, ReplacedLoginExitMode, ReplacedRange}
use sa_token_rust.Storage.{SaStorage}
use sa_token_rust.Keys
use sa_token_rust.Keys.{login_token_index, token_id_mapping, token_info, token_session, login_token}
use sa_token_rust.Token
use sa_token_rust.Token.{TokenInfo, intern_login_type, update_active_time}
use sa_token_rust.Session.{SaSession}
use sa_token_rust.TokenRepo.{get_login_mapping, list_tokens}
use sa_token_rust.TokenRepo.Bodies.{get_token_info, load_valid_token_info}
use sa_token_rust.SessionRepo.{get_terminal_list}
use sa_token_rust.Refresh.{Libraries, plus_timeout}
use sa_token_rust.Nonce
use sa_token_rust.Nonce.{NonceRecord, NonceManager}
use sa_token_rust.Auth.{AuthService}
use sa_token_rust.Auth.Request.{LoginRequest, effective_device, non_empty}
use sa_token_rust.Auth.Unique.{generate_unique}
use sa_token_rust.Auth.Compensator.{LoginCompensator, on_fail_restore}
use sa_token_rust.Auth.Logout.{logout_replaced}
use sa_token_rust.Auth.Accounts.{each}
use sa_token_rust.Auth.Validity.{is_ok}
use sa_token_rust.Dao.{
  Action, pure, throw, with_now, lift, ◌>>=◌, ◌>>◌, from_secs, Codec, timeout_duration, get_string,
}

-- `DEFAULT_DISABLE_SERVICE`, `MIN_DISABLE_LEVEL` and `NOT_DISABLE_LEVEL` of sa-token-core/src/disable.rs.
abbrev pub default_disable_service : String
default_disable_service = "login"

-- `raw.parse().unwrap_or(MIN_DISABLE_LEVEL)`.
level_of : Option ℤ → ℤ
level_of none = pos 1
level_of (some z) = z

-- A level that is not -2 and at least 1.
unfoldable pub bans : ℤ → Bool
bans (pos n) = is_positive (pos n)
bans (negsuc n) = false

module _ (st : SaStorage) {Value : Type 0} (libs : Libraries Value)
    (sessions : Codec (SaSession Value)) (nonces : Codec NonceRecord) where
  abbrev Act : Type 0 → Type 0
  Act A = Action st.State A

  refuse_banned : Option String → Act (Unit {0})
  unfolding level_of parse print
  refuse_banned none = pure tt
  refuse_banned (some raw) =
      if bans (level_of (parse 31 raw))
      then throw (account_banned ("service=login level=" <> print (level_of (parse 31 raw))))
      else pure tt

  unfoldable pub check_banned : AuthService st.State → String → String → Act (Unit {0})
  unfolding refuse_banned
  check_banned self login_type login_id = do
    raw ← get_string st (Keys.disable self.dao.keys login_type login_id default_disable_service)
    refuse_banned raw

  unfoldable pub nonce_timeout : SaTokenConfig → ℤ
  nonce_timeout config =
      if is_positive config.nonce_timeout then config.nonce_timeout else config.timeout

  -- What is registered for a nonce that was there before.
  restore_nonce : ℤ → String → Option String → LoginCompensator
  restore_nonce timeout key none = []
  restore_nonce timeout key (some raw) =
      on_fail_restore key raw
        (if is_positive timeout then some (from_secs (to_ℕ timeout)) else none) []

  unfoldable pub consume_nonce : AuthService st.State → String → String → Act LoginCompensator
  unfolding restore_nonce nonce_timeout from_secs
  consume_nonce self nonce login_id = do
    snapshot ← get_string st (Keys.nonce self.dao.keys nonce)
    Nonce.validate_and_consume st nonces libs.to_rfc3339
        (record { dao = self.dao; timeout = nonce_timeout self.config }) nonce login_id
    pure (restore_nonce (nonce_timeout self.config) (Keys.nonce self.dao.keys nonce) snapshot)

  unfoldable pub nonce_step :
      AuthService st.State → Bool → Option String → String → Act LoginCompensator
  nonce_step self true (some value) login_id = consume_nonce self value login_id
  nonce_step self enabled value login_id = pure []

  -- The token of an earlier login that is still valid.
  still_valid : AuthService st.State → Option String → Act (Option String)
  still_valid self none now s = (ok none, s)
  still_valid self (some existing) now s =
      let (r, s') = load_valid_token_info st libs.token_codec self.token_repo existing now s in
      (ok (if is_ok st libs.token_codec sessions r then some existing else none), s')

  unfoldable pub shared_token : AuthService st.State → String → String → Act (Option String)
  unfolding still_valid
  shared_token self login_type login_id =
      if self.config.is_share
      then (do
        existing ← get_login_mapping st self.token_repo login_type login_id
        still_valid self existing)
      else pure none

  occupied : AuthService st.State → String → Act Bool
  occupied self token = do
    found ← get_token_info st libs.token_codec self.token_repo token
    pure (is_some found)

  fresh_token : AuthService st.State → LoginRequest Value → Option String → Act String
  unfolding occupied
  fresh_token self req (some preset) = pure preset
  fresh_token self req none =
      generate_unique (libs.create req.extra_data req.login_id) (occupied self)
        self.config.max_try_times

  expiry : AuthService st.State → Option ℕ → ℕ → SaTokenResult (Option ℕ)
  unfolding plus_timeout timeout_duration
  expiry self (some e) now = ok (some e)
  expiry self none now =
      plus_timeout "timeout value is out of supported range" libs.from_std now
        (timeout_duration (dao_config self.config))

  unfoldable pub build_token_info :
      AuthService st.State → LoginRequest Value → String → Act (TokenInfo Value)
  unfolding fresh_token expiry non_empty intern_login_type update_active_time Token.new
  build_token_info self req login_type = do
    token ← fresh_token self req (non_empty req.preset_token)
    with_now λ now. do
      expire ← lift (expiry self req.expire_time now)
      pure (record (update_active_time (Token.new token req.login_id now) now) {
        login_type = intern_login_type login_type;
        device = req.device;
        extra_data = req.extra_data;
        nonce = req.nonce;
        expire_time = expire;
      })

  -- `HashSet::insert` over a list without duplicates.
  insert_all : List String → List String → List String
  insert_all targets [] = targets
  insert_all targets (t ∷ ts) =
      insert_all (if any (λ u. u == t) targets then targets else targets ++ t ∷ []) ts

  of_mapping : Option String → List String
  of_mapping none = []
  of_mapping (some t) = t ∷ []

  -- Without a device type the range is that of all devices.
  degraded : ReplacedRange → Option String → ReplacedRange
  degraded ReplacedRange.curr_device_type none = ReplacedRange.all_device_type
  degraded range device = range

  targets_in :
      AuthService st.State
      → String
      → String
      → String
      → Option String
      → ReplacedRange
      → Act (List String)
  unfolding insert_all of_mapping
  targets_in self login_type login_id n device ReplacedRange.curr_device_type = do
    terminals ← get_terminal_list st sessions self.dao n device
    pure (insert_all [] (map (λ t. t.token_value) terminals))
  targets_in self login_type login_id n device ReplacedRange.all_device_type = do
    indexed ← list_tokens st self.token_repo login_type login_id
    old ← get_login_mapping st self.token_repo login_type login_id
    pure (insert_all (insert_all [] indexed) (of_mapping old))

  replace_targets : AuthService st.State → List String → ReplacedLoginExitMode → Act (Unit {0})
  unfolding each
  replace_targets self [] mode = pure tt
  replace_targets self (t ∷ ts) ReplacedLoginExitMode.new_device = throw account_replaced
  replace_targets self (t ∷ ts) ReplacedLoginExitMode.old_device =
      each st libs.token_codec sessions (logout_replaced st libs.token_codec sessions self) (t ∷ ts)

  unfoldable pub handle_replaced_on_login :
      AuthService st.State → String → String → String → LoginRequest Value → String → Act (Unit {0})
  unfolding targets_in replace_targets degraded effective_device
  handle_replaced_on_login self login_type login_id n req new_token = do
    targets ←
        targets_in self login_type login_id n (effective_device req)
          (degraded self.config.replaced_range (effective_device req))
    replace_targets self (retain (λ t. not (t == new_token)) targets)
        self.config.replaced_login_exit_mode
