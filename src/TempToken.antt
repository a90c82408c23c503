-- ===== src/TempToken.antt =====
-- Temporary tokens: sa-token-core/src/temp_token.rs.
--
-- Parameters: `random i` is the i-th text that `random_hex` draws, `index_digest` is the hexadecimal
-- SHA-256, and the codec is serde's.
pub mod IndexLaws
pub mod CreateLaws
pub mod RoundTrip
use sa_token_rust.Common.{
  ℕ, zero, suc, ◌+◌, String, Bool, true, false, Option, none, some, ok, err, if◌then◌else◌, ltb,
}
use sa_token_rust.Common.Int.{ℤ, is_negative, is_zero, to_ℕ}
use sa_token_rust.Common.Text.{is_empty}
use sa_token_rust.Error.{
  SaTokenError, SaTokenResult, config_error, temp_token_not_found, temp_token_expired,
}
use sa_token_rust.Storage.{SaStorage}
use sa_token_rust.Keys.{temp_token, temp_index}
use sa_token_rust.Dao.{
  Action, pure, throw, with_now, lift, ok_or, try, ◌>>=◌, ◌>>◌, from_secs, add_seconds, Codec,
  SaTokenDao, get_string, set_string, set_if_absent, get_object,
}
use sa_token_rust.Dao

-- `serde_json::Value`, as far as the manager looks at it: a string, or anything else.
pub data Value : Type 0 where
  string : String → Value
  other : String → Value

abbrev pub as_str : Value → Option String
as_str (string s) = some s
as_str (other raw) = none

pub record TempTokenRecord : Type 0 where
  pub value : Value
  pub namespace : String
  pub expire_at : Option ℕ

unfoldable pub ttl : ℤ → SaTokenResult (Option ℕ)
unfolding from_secs
ttl timeout_secs =
    if is_zero timeout_secs
    then err (config_error "temp token timeout must not be 0")
    else if is_negative timeout_secs
    then ok none
    else ok (some (from_secs (to_ℕ timeout_secs)))

unfoldable pub expire_at : ℤ → ℕ → Option ℕ
unfolding add_seconds
expire_at timeout_secs now =
    if is_negative timeout_secs then none else some (add_seconds now timeout_secs)

module _ (st : SaStorage) (codec : Codec TempTokenRecord) (index_digest : String → String)
    (dao : SaTokenDao) where
  abbrev pub token_key : String → String → String
  token_key namespace token = temp_token dao.keys namespace token

  abbrev pub index_key : String → String → String
  index_key namespace value = temp_index dao.keys namespace (index_digest value)

  -- The loop, with the attempts that are left, from the `i`-th draw on. The empty text means that
  -- no draw was free.
  unfoldable pub allocate :
      (ℕ → SaTokenResult String)
      → ℕ
      → ℕ
      → String
      → TempTokenRecord
      → Option ℕ
      → Action st.State String
  allocate random zero i namespace rec ttl = pure ""
  allocate random (suc n) i namespace rec ttl =
      let rest = allocate random n (i + 1) namespace rec ttl in
      lift (random i) >>= λ candidate. lift (codec.encode rec) >>= λ raw.
      set_if_absent st (token_key namespace candidate) raw ttl >>= λ inserted.
      if inserted then pure candidate else rest

  unfoldable pub write_index :
      Bool → Option String → String → String → Option ℕ → Action st.State (Unit {0})
  write_index true (some s) namespace token ttl = set_string st (index_key namespace s) token ttl
  write_index _ _ namespace token ttl = pure tt

  unfoldable pub create :
      (ℕ → SaTokenResult String) → String → Value → ℤ → Bool → Action st.State String
  unfolding is_empty ttl expire_at allocate write_index
  create random namespace value timeout_secs record_index =
      if is_empty namespace
      then throw (config_error "temp token namespace must not be empty")
      else with_now (λ now. do
        ttl ← lift (ttl timeout_secs)
        token ←
            allocate random 12 0 namespace
              (record {
                value = value;
                namespace = namespace;
                expire_at = expire_at timeout_secs now;
              })
              ttl
        if is_empty token
            then throw (config_error "failed to allocate a unique temp token")
            else (write_index record_index (as_str value) namespace token ttl >> pure token))

  unfoldable pub is_past : Option ℕ → ℕ → Bool
  is_past none now = false
  is_past (some exp) now = ltb exp now

  unfoldable pub parse : String → String → Action st.State TempTokenRecord
  unfolding is_empty is_past
  parse namespace token =
      if is_empty token
      then throw temp_token_not_found
      else with_now (λ now. do
        found ← get_object st codec (token_key namespace token)
        rec ← ok_or temp_token_not_found found
        if is_past rec.expire_at now
            then try (Dao.delete st (token_key namespace token)) (throw temp_token_expired)
            else pure rec)

  unfoldable pub find_token : String → String → Action st.State String
  find_token namespace value = do
    found ← get_string st (index_key namespace value)
    ok_or temp_token_not_found found

  -- What `delete` does for a record that it could read.
  unfoldable pub drop_index :
      String → SaTokenResult (Option TempTokenRecord) → Action st.State (Unit {0})
  drop_index namespace (err e) = pure tt
  drop_index namespace (ok none) = pure tt
  drop_index namespace (ok (some rec)) = elim (as_str rec.value) [
    | none ↦ pure tt
    | some s ↦ try (Dao.delete st (index_key namespace s)) (pure tt)
  ]

  unfoldable pub delete : String → String → Action st.State (Unit {0})
  unfolding drop_index
  delete namespace token now s =
      let (r, s') = get_object st codec (token_key namespace token) now s in
      (drop_index namespace r >> Dao.delete st (token_key namespace token)) now s'
