-- ===== src/Nonce.antt =====
-- Nonces: sa-token-core/src/nonce.rs. The time format of `chrono` is the parameter `to_rfc3339`.
pub mod Once
use sa_token_rust.Common.{
  ℕ, String, Bool, true, false, Option, none, some, if◌then◌else◌, not, is_some,
}
use sa_token_rust.Common.Int.{ℤ, is_positive, to_ℕ}
use sa_token_rust.Common.Text.{is_empty, trim}
use sa_token_rust.Error.{SaTokenError, invalid_token, nonce_already_used}
use sa_token_rust.Storage.{SaStorage}
use sa_token_rust.Keys.{nonce}
use sa_token_rust.Dao.{
  Action, pure, throw, with_now, lift, ◌>>=◌, ◌>>◌, from_secs, Codec, SaTokenDao, get_string,
  get_object, set_object, set_if_absent,
}

pub record NonceRecord : Type 0 where
  pub login_id : String
  pub created_at : String

pub record NonceManager : Type 0 where
  pub dao : SaTokenDao
  pub timeout : ℤ

unfoldable pub ttl : NonceManager → Option ℕ
unfolding from_secs
ttl self = if is_positive self.timeout then some (from_secs (to_ℕ self.timeout)) else none

-- The key of a nonce.
abbrev pub key : NonceManager → String → String
key self n = nonce self.dao.keys n

module _ (st : SaStorage) (codec : Codec NonceRecord) (to_rfc3339 : ℕ → String) where
  -- `NonceRecord::new`.
  abbrev pub new_record : String → ℕ → NonceRecord
  new_record login_id now = record { login_id = login_id; created_at = to_rfc3339 now }

  unfoldable pub store : NonceManager → String → String → Action st.State (Unit {0})
  unfolding ttl
  store self n login_id =
      with_now (λ now. set_object st codec (key self n) (new_record login_id now) (ttl self))

  unfoldable pub get_record : NonceManager → String → Action st.State (Option NonceRecord)
  get_record self n = get_object st codec (key self n)

  unfoldable pub validate : NonceManager → String → Action st.State Bool
  validate self n = do found ← get_string st (key self n); pure (not (is_some found))

  -- The answer of `set_if_absent`.
  refuse_used : Bool → Action st.State (Unit {0})
  refuse_used true = pure tt
  refuse_used false = throw nonce_already_used

  unfoldable pub validate_and_consume : NonceManager → String → String → Action st.State (Unit {0})
  unfolding ttl refuse_used
  validate_and_consume self n login_id =
      if is_empty (trim n)
      then throw (invalid_token "nonce must not be empty")
      else with_now (λ now. do
        raw ← lift (codec.encode (new_record login_id now))
        occupied ← set_if_absent st (key self n) raw (ttl self)
        refuse_used occupied)
