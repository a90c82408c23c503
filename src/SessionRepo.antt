-- ===== src/SessionRepo.antt =====
-- The session repository: sa-token-core/src/repository/session_repo.rs. A JSON value is of the
-- parameter type `Value`, and serde is the parameter `codec`. An `AccountNs` is its text.
pub mod KeepsBodies
use sa_token_rust.Common.{
  ℕ, String, Bool, true, false, Option, none, some, List, Result, ok, err, is_some,
}
use sa_token_rust.Common.Text.{◌<>◌}
use sa_token_rust.Error.{SaTokenError, SaTokenResult, config_error}
use sa_token_rust.Storage.{SaStorage}
use sa_token_rust.Keys.{KeyError, SaKeys, account_ns, validate_login_id, token_session}
use sa_token_rust.Keys.More.{session_by_ns, to_string}
use sa_token_rust.Session.{
  SaSession, SaTerminalInfo, new, add_terminal, remove_terminal, terminal_count,
  get_terminal_list_by_device_type, get_token_value_list_by_device_type, get_terminal,
}
use sa_token_rust.Dao.{
  Action, pure, throw, with_now, lift, ◌>>=◌, ◌>>◌, Codec, SaTokenDao, default_ttl, get_string,
  delete, get_object, set_object,
}

-- `map_err(|e| SaTokenError::ConfigError(e.to_string()))`.
unfoldable pub key_err {ℓ} : {A : Type ℓ} → Result KeyError A → SaTokenResult A
unfolding to_string
key_err (ok a) = ok a
key_err (err e) = err (config_error (to_string e))

named : String → String → SaTokenResult (Unit {0}) → SaTokenResult String
named login_type login_id (ok u) = ok (account_ns login_type login_id)
named login_type login_id (err e) = err e

-- `LoginId::try_new` and `SaKeys::account_ns`.
unfoldable pub ns : String → String → SaTokenResult String
unfolding named validate_login_id key_err account_ns
ns login_type login_id = named login_type login_id (key_err (validate_login_id login_id))

module _ (st : SaStorage) {Value : Type 0} (codec : Codec (SaSession Value)) where
  unfoldable pub account_session_key : SaTokenDao → String → Action st.State String
  unfolding key_err session_by_ns
  account_session_key dao n = lift (key_err (session_by_ns dao.keys n))

  unfoldable pub or_new : String → Option (SaSession Value) → Action st.State (SaSession Value)
  unfolding new
  or_new id none = with_now (λ now. pure (new id now))
  or_new id (some session) = pure session

  unfoldable pub get_by_ns : SaTokenDao → String → Action st.State (SaSession Value)
  unfolding or_new
  get_by_ns dao n = do
    key ← account_session_key dao n
    found ← get_object st codec key
    or_new n found

  unfoldable pub get_account_session :
      SaTokenDao → String → String → Action st.State (SaSession Value)
  unfolding ns
  get_account_session dao login_type login_id = do
    n ← lift (ns login_type login_id)
    get_by_ns dao n

  unfoldable pub snapshot_account_session : SaTokenDao → String → Action st.State (Option String)
  snapshot_account_session dao n = do key ← account_session_key dao n; get_string st key

  unfoldable pub save_by_ns : SaTokenDao → String → SaSession Value → Action st.State (Unit {0})
  save_by_ns dao n session = do
    key ← account_session_key dao n
    set_object st codec key session (default_ttl dao)

  unfoldable pub save_account_session :
      SaTokenDao → String → String → SaSession Value → Action st.State (Unit {0})
  unfolding ns
  save_account_session dao login_type login_id session = do
    n ← lift (ns login_type login_id)
    save_by_ns dao n session

  unfoldable pub save_session_object : SaTokenDao → SaSession Value → Action st.State (Unit {0})
  save_session_object dao session = save_by_ns dao session.id session

  unfoldable pub delete_by_ns : SaTokenDao → String → Action st.State (Unit {0})
  delete_by_ns dao n = do key ← account_session_key dao n; delete st key

  unfoldable pub delete_account_session : SaTokenDao → String → String → Action st.State (Unit {0})
  unfolding ns
  delete_account_session dao login_type login_id = do
    n ← lift (ns login_type login_id)
    delete_by_ns dao n

  unfoldable pub add_terminal_to :
      SaTokenDao → String → SaTerminalInfo Value → Action st.State (Unit {0})
  add_terminal_to dao n terminal = do
    session ← get_by_ns dao n
    save_by_ns dao n (add_terminal session terminal)

  save_removed :
      SaTokenDao → String → Option (SaTerminalInfo Value) × SaSession Value → Action st.State Bool
  save_removed dao n (none, session) = pure false
  save_removed dao n (some t, session) = do save_by_ns dao n session; pure true

  unfoldable pub remove_terminal_from : SaTokenDao → String → String → Action st.State Bool
  unfolding save_removed
  remove_terminal_from dao n token = do
    session ← get_by_ns dao n
    save_removed dao n (remove_terminal session token)

  unfoldable pub count_terminals : SaTokenDao → String → Action st.State ℕ
  count_terminals dao n = do session ← get_by_ns dao n; pure (terminal_count session)

  unfoldable pub get_terminal_list :
      SaTokenDao → String → Option String → Action st.State (List (SaTerminalInfo Value))
  get_terminal_list dao n device_type = do
    session ← get_by_ns dao n
    pure (get_terminal_list_by_device_type session device_type)

  unfoldable pub get_token_list :
      SaTokenDao → String → Option String → Action st.State (List String)
  get_token_list dao n device_type = do
    session ← get_by_ns dao n
    pure (get_token_value_list_by_device_type session device_type)

  unfoldable pub find_terminal :
      SaTokenDao → String → String → Action st.State (Option (SaTerminalInfo Value))
  find_terminal dao n token = do session ← get_by_ns dao n; pure (get_terminal session token)

  unfoldable pub save_token_session :
      SaTokenDao → String → SaSession Value → Action st.State (Unit {0})
  save_token_session dao token session =
      set_object st codec (token_session dao.keys token) session (default_ttl dao)

  unfoldable pub create_token_session : SaTokenDao → String → Action st.State (Unit {0})
  unfolding new
  create_token_session dao token =
      with_now (λ now. save_token_session dao token (new ("token-session:" <> token) now))

  unfoldable pub get_token_session :
      SaTokenDao → String → Action st.State (Option (SaSession Value))
  get_token_session dao token = get_object st codec (token_session dao.keys token)

  unfoldable pub delete_token_session : SaTokenDao → String → Action st.State (Unit {0})
  delete_token_session dao token = delete st (token_session dao.keys token)
