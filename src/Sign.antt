-- ===== src/Sign.antt =====
-- Request signing: sa-token-core/src/sign.rs. A `BTreeMap` is an association list in the order of
-- its keys. HMAC-SHA256 with its hexadecimal form is the parameter `hmac`, which may refuse a
-- secret, and `random_hex` is the random nonce. The time is counted in nanoseconds, and the `i64`
-- subtraction wraps around, as the release profile has it.
pub mod Params
pub mod Arithmetic
pub mod Window
pub mod Accepted
pub mod NonceUse
pub mod VerifyLaws
pub mod RoundTrip
use sa_token_rust.Common.{
  ℕ, ◌/◌, ◌^◌, String, Bool, true, false, Option, none, some, List, [], ◌∷◌, Result, ok, err, not,
  if◌then◌else◌, ◌==◌,
}
use sa_token_rust.Common.Text.{◌<>◌, is_empty}
use sa_token_rust.Common.Int.{ℤ, pos, is_positive, to_ℕ}
use sa_token_rust.Common.Decimal.{print_ℕ, parse}
use sa_token_rust.Common.Assoc.{Assoc, lookup}
use sa_token_rust.Error.{
  SaTokenError, SaTokenResult, config_error, nonce_already_used, sign_invalid,
  sign_timestamp_expired, sso_sign_invalid, ticket_expired,
}
use sa_token_rust.Storage.{SaStorage}
use sa_token_rust.Memory.Shard.{bytes}
use sa_token_rust.HttpBasic.{ct_eq}
use sa_token_rust.Keys.{sign_nonce}
use sa_token_rust.Dao.{
  Action, pure, throw, with_now, lift, ok_or, ◌>>=◌, ◌>>◌, from_secs, SaTokenDao, set_if_absent,
}
use sa_token_rust.Sign.Params.{insert, canonical}
use sa_token_rust.Sign.Arithmetic.{outside}
use sa_token_rust.OAuth2.{as_u64}

pub record RequestSign : Type 0 where
  pub secret : String
  pub window_secs : ℤ
  pub dao : Option SaTokenDao

unfoldable pub new : String → ℤ → RequestSign
new secret window_secs = record {
  secret = secret;
  window_secs = if is_positive window_secs then window_secs else pos 300;
  dao = none;
}

unfoldable pub with_dao : RequestSign → SaTokenDao → RequestSign
with_dao self dao = record self { dao = some dao }

-- `Utc::now().timestamp()`.
abbrev pub timestamp : ℕ → ℕ
timestamp now = now / 10 ^ 9

abbrev pub secret_is_empty : SaTokenError
secret_is_empty = config_error "request sign secret is empty"

module _ (hmac : String → String → Result String String) where
  -- `map_err` of a refused secret.
  signed_or : Result String String → SaTokenResult String
  signed_or (ok sign) = ok sign
  signed_or (err e) = err (config_error ("invalid request sign secret: " <> e))

  unfoldable pub sign_params : RequestSign → Assoc String → SaTokenResult String
  unfolding signed_or canonical is_empty
  sign_params self params =
      if is_empty self.secret
      then err secret_is_empty
      else signed_or (hmac self.secret (canonical params))

  -- The parameters with a time and a nonce.
  abbrev pub stamped : Assoc String → ℕ → String → Assoc String
  stamped params now nonce =
      insert "nonce" nonce (insert "timestamp" (print_ℕ (timestamp now)) params)

  -- The signature is inserted.
  unfoldable pub with_sign : Assoc String → SaTokenResult String → SaTokenResult (Assoc String)
  with_sign params (ok sign) = ok (insert "sign" sign params)
  with_sign params (err e) = err e

  unfoldable pub create_signed :
      RequestSign → Assoc String → ℕ → SaTokenResult String → SaTokenResult (Assoc String)
  unfolding sign_params with_sign
  create_signed self params now (ok nonce) =
      with_sign (stamped params now nonce) (sign_params self (stamped params now nonce))
  create_signed self params now (err e) = err e

  module _ (st : SaStorage) where
    -- `parse::<i64>().ok()` of the time, if there is one.
    unfoldable pub parse_time : Option String → Option ℤ
    unfolding parse
    parse_time none = none
    parse_time (some raw) = parse 63 raw

    unfoldable pub check_window : RequestSign → ℤ → ℕ → Action st.State (Unit {0})
    unfolding outside
    check_window self ts now =
        if outside (timestamp now) ts self.window_secs
        then throw sign_timestamp_expired
        else pure tt

    unfoldable pub refuse_used : Bool → Action st.State (Unit {0})
    refuse_used true = pure tt
    refuse_used false = throw nonce_already_used

    -- The nonce is used up, if there are a nonce and a storage.
    unfoldable pub consume_nonce :
        RequestSign → Option String → Option SaTokenDao → Action st.State (Unit {0})
    unfolding refuse_used from_secs as_u64
    consume_nonce self (some nonce) (some dao) = do
      inserted ←
          set_if_absent st (sign_nonce dao.keys nonce) "1"
            (some (from_secs (as_u64 self.window_secs)))
      refuse_used inserted
    consume_nonce self _ _ = pure tt

    unfoldable pub compare_sign : String → String → Action st.State (Unit {0})
    unfolding ct_eq bytes
    compare_sign expected provided =
        if ct_eq (bytes expected) (bytes provided) then pure tt else throw sign_invalid

    unfoldable pub verify_params : RequestSign → Assoc String → String → Action st.State (Unit {0})
    unfolding sign_params parse_time check_window consume_nonce compare_sign is_empty
    verify_params self params provided_sign =
        if is_empty self.secret then throw secret_is_empty else (do
          ts ← ok_or sign_timestamp_expired (parse_time (lookup "timestamp" params))
          with_now (check_window self ts)
          consume_nonce self (lookup "nonce" params) self.dao
          expected ← lift (sign_params self params)
          compare_sign expected provided_sign)

unfoldable pub map_sign_err_to_sso : SaTokenError → SaTokenError
map_sign_err_to_sso sign_invalid = sso_sign_invalid
map_sign_err_to_sso sign_timestamp_expired = ticket_expired
map_sign_err_to_sso other = other
