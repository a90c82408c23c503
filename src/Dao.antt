-- ===== src/Dao.antt =====
-- The data access layer: sa-token-core/src/dao.rs, the only way of the services to the storage.
--
-- An action is a method of a service: it runs at one instant (the clock is read once for each
-- handler) on the state of the storage, and either returns or fails; what it wrote before a
-- failure stays written. `serde` is the parameter `Codec`.
pub mod Keeps
pub mod Never
pub mod Reads
pub mod Binds
pub mod ReadOnly
pub mod Objects
use sa_token_rust.Common.{
  ℕ, ◌+◌, ◌-◌, ◌*◌, ◌^◌, String, ◌≡◌, Bool, Option, none, some, List, [], ok, err, if◌then◌else◌,
}
use sa_token_rust.Common.Int.{ℤ, pos, negsuc, is_positive, is_negative, to_ℕ}
use sa_token_rust.Error.{SaTokenError, SaTokenResult, storage_error}
use sa_token_rust.Storage.{StorageError, StorageResult, SaStorage, ScanPage, to_string}
use sa_token_rust.Keys.{SaKeys}

abbrev pub Action {ℓ} : Type ℓ → Type ℓ → Type ℓ
Action S A = ℕ → S → SaTokenResult A × S

module _ {ℓ} {S A : Type ℓ} where
  abbrev pub pure : A → Action S A
  pure a now s = (ok a, s)

  abbrev pub throw : SaTokenError → Action S A
  throw e now s = (err e, s)

  -- The clock.
  abbrev pub with_now : (ℕ → Action S A) → Action S A
  with_now f now s = f now now s

  -- `?` on a result, and `ok_or`.
  abbrev pub lift : SaTokenResult A → Action S A
  lift r now s = (r, s)

  abbrev pub ok_or : SaTokenError → Option A → Action S A
  ok_or e none = throw e
  ok_or e (some a) = pure a

infixl 10 ◌>>=◌
abbrev pub ◌>>=◌ {ℓ} : {S A B : Type ℓ} → Action S A → (A → Action S B) → Action S B
◌>>=◌ m f now s = let (r, s') = m now s in elim r [ ok a ↦ f a now s' | err e ↦ (err e, s') ]

infixl 10 ◌>>◌
abbrev pub ◌>>◌ {ℓ} : {S A B : Type ℓ} → Action S A → Action S B → Action S B
m >> k = m >>= λ _. k

-- An action whose outcome is dropped, an error too.
abbrev pub try {ℓ} : {S A B : Type ℓ} → Action S A → Action S B → Action S B
try m k now s = let (r, s') = m now s in k now s'

-- `match m.await { Ok(a) => k(a), Err(e) => h(e) }`.
abbrev pub handle {ℓ} :
    {S A B : Type ℓ} → Action S A → (A → Action S B) → (SaTokenError → Action S B) → Action S B
handle m k h now s = let (r, s') = m now s in elim r [ ok a ↦ k a now s' | err e ↦ h e now s' ]

-- The instants of a second, `Duration::from_secs`.
unfoldable pub from_secs : ℕ → ℕ
from_secs n = n * 10 ^ 9

-- `instant + Duration::seconds(n)`. An instant before the epoch is taken as the epoch.
unfoldable pub add_seconds : ℕ → ℤ → ℕ
unfolding from_secs
add_seconds now (pos n) = now + from_secs n
add_seconds now (negsuc n) = now - from_secs (n + 1)

-- A value's text form, which `serde` implements. What is written is read back.
pub record Codec (T : Type 0) : Type 0 where
  pub encode : T → SaTokenResult String
  pub decode : String → SaTokenResult T
  pub decode-encode : (x : T) (raw : String) → encode x ≡ ok raw → decode raw ≡ ok x

-- The part of `SaTokenConfig` that the data access layer reads.
pub record DaoConfig : Type 0 where
  pub timeout : ℤ
  pub active_timeout : ℤ

-- `SaTokenConfig::timeout_duration`.
unfoldable pub timeout_duration : DaoConfig → Option ℕ
unfolding from_secs
timeout_duration config =
    if is_negative config.timeout then none else some (from_secs (to_ℕ config.timeout))

pub record SaTokenDao : Type 0 where
  pub keys : SaKeys
  pub config : DaoConfig

unfoldable pub default_ttl : SaTokenDao → Option ℕ
unfolding timeout_duration
default_ttl dao = timeout_duration dao.config

unfoldable pub renew_secs : SaTokenDao → ℤ
renew_secs dao =
    if is_positive dao.config.active_timeout then dao.config.active_timeout else dao.config.timeout

unfoldable pub renew_ttl : SaTokenDao → Option ℕ
unfolding renew_secs from_secs
renew_ttl dao =
    if is_positive (renew_secs dao) then some (from_secs (to_ℕ (renew_secs dao))) else none

-- `map_err(|e| SaTokenError::StorageError(e.to_string()))`.
unfoldable pub map_err {ℓ} : {A : Type ℓ} → StorageResult A → SaTokenResult A
map_err (ok a) = ok a
map_err (err e) = err (storage_error (to_string e))

module _ (st : SaStorage) where
  abbrev run : {A : Type 0} → (ℕ → st.State → StorageResult A × st.State) → Action st.State A
  run m now s = let (r, s') = m now s in (map_err r, s')

  unfoldable pub get_string : String → Action st.State (Option String)
  unfolding map_err
  get_string key = run (st.get key)

  unfoldable pub set_string : String → String → Option ℕ → Action st.State (Unit {0})
  unfolding map_err
  set_string key value ttl = run (st.set key value ttl)

  unfoldable pub delete : String → Action st.State (Unit {0})
  unfolding map_err
  delete key = run (st.delete key)

  unfoldable pub ttl : String → Action st.State (Option ℕ)
  unfolding map_err
  ttl key = run (st.ttl key)

  unfoldable pub take_string : String → Action st.State (Option String)
  unfolding map_err
  take_string key = run (st.get_del key)

  unfoldable pub set_if_absent : String → String → Option ℕ → Action st.State Bool
  unfolding map_err
  set_if_absent key value ttl = run (st.set_if_absent key value ttl)

  unfoldable pub cas : String → Option String → String → Option ℕ → Action st.State Bool
  unfolding map_err
  cas key expected new_value ttl = run (st.compare_and_swap key expected new_value ttl)

  unfoldable pub cas_delete : String → String → Action st.State Bool
  unfolding map_err
  cas_delete key expected = run (st.compare_and_delete key expected)

  unfoldable pub list_push_unique : String → String → Option ℕ → Action st.State ℕ
  unfolding map_err
  list_push_unique key member ttl = run (st.list_push key member Bool.true ttl)

  unfoldable pub list_remove : String → String → Action st.State Bool
  unfolding map_err
  list_remove key member = run (st.list_remove key member)

  unfoldable pub list_range : String → ℕ → Option ℕ → Action st.State (List String)
  unfolding map_err
  list_range key start limit = run (st.list_range key start limit)

  unfoldable pub list_len : String → Action st.State ℕ
  unfolding map_err
  list_len key = run (st.list_len key)

  unfoldable pub scan : String → ℕ → ℕ → Action st.State ScanPage
  unfolding map_err
  scan pattern cursor limit = run (st.scan pattern cursor limit)

  module _ {T : Type 0} (codec : Codec T) where
    decode_some : Option String → Action st.State (Option T)
    decode_some none = pure none
    decode_some (some raw) = do value ← lift (codec.decode raw); pure (some value)

    unfoldable pub get_object : String → Action st.State (Option T)
    unfolding decode_some
    get_object key = do raw ← get_string key; decode_some raw

    unfoldable pub set_object : String → T → Option ℕ → Action st.State (Unit {0})
    set_object key value ttl = do raw ← lift (codec.encode value); set_string key raw ttl

  decode_list : Codec (List String) → Option String → Action st.State (List String)
  decode_list codec none = pure []
  decode_list codec (some raw) = lift (codec.decode raw)

  unfoldable pub get_string_list : Codec (List String) → String → Action st.State (List String)
  unfolding decode_list
  get_string_list codec key = do raw ← get_string key; decode_list codec raw

  unfoldable pub set_string_list :
      Codec (List String) → String → List String → Option ℕ → Action st.State (Unit {0})
  set_string_list codec key list ttl = do raw ← lift (codec.encode list); set_string key raw ttl
