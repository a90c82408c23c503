-- ===== src/Storage.antt =====
-- The storage adapter: sa-token-adapter/src/storage.rs.
--
-- `SaStorage` is the trait: the state of a backend and its operations, which may fail. Every
-- operation takes the instant at which it runs. Instants and durations are counted in
-- nanoseconds, as `chrono` and `std::time` do. `StorageLaws` is what a client may rely on.
pub mod Frames
pub mod Further
pub mod Defaults
use sa_token_rust.Common.{
  ℕ, ◌≤◌, ◌+◌, String, ◌≡◌, Bool, true, Option, none, some, List, Result, ok, ◌==◌, if◌then◌else◌,
  leb, option_eq,
}
use sa_token_rust.Common.Int.{ℤ}
use sa_token_rust.Common.Text.{◌<>◌}

pub data StorageError : Type 0 where
  operation_failed key_not_found serialization_error connection_error : String → StorageError
  internal_error unsupported : String → StorageError

-- The `Display` text of an error.
unfoldable pub to_string : StorageError → String
to_string (operation_failed m) = "Storage operation failed: " <> m
to_string (key_not_found m) = "Key not found: " <> m
to_string (serialization_error m) = "Serialization error: " <> m
to_string (connection_error m) = "Connection error: " <> m
to_string (internal_error m) = "Internal error: " <> m
to_string (unsupported m) = "Unsupported operation '" <> m <> "' on this storage backend"

abbrev pub StorageResult {ℓ} : Type ℓ → Type ℓ
StorageResult A = Result StorageError A

pub record ScanPage : Type 0 where
  pub keys : List String
  pub next_cursor : ℕ

pub record SaStorage : Type 1 where
  pub State : Type 0
  pub get : String → ℕ → State → StorageResult (Option String) × State
  pub set : String → String → Option ℕ → ℕ → State → StorageResult (Unit {0}) × State
  pub delete : String → ℕ → State → StorageResult (Unit {0}) × State
  pub exists : String → ℕ → State → StorageResult Bool × State
  pub expire : String → ℕ → ℕ → State → StorageResult (Unit {0}) × State
  pub ttl : String → ℕ → State → StorageResult (Option ℕ) × State
  pub mget : List String → ℕ → State → StorageResult (List (Option String)) × State
  pub mset : List (String × String) → Option ℕ → ℕ → State → StorageResult (Unit {0}) × State
  pub mdel : List String → ℕ → State → StorageResult (Unit {0}) × State
  pub incr : String → ℕ → State → StorageResult ℤ × State
  pub decr : String → ℕ → State → StorageResult ℤ × State
  pub clear : ℕ → State → StorageResult (Unit {0}) × State
  pub set_if_absent : String → String → Option ℕ → ℕ → State → StorageResult Bool × State
  pub get_del : String → ℕ → State → StorageResult (Option String) × State
  pub compare_and_swap :
      String → Option String → String → Option ℕ → ℕ → State → StorageResult Bool × State
  pub compare_and_delete : String → String → ℕ → State → StorageResult Bool × State
  pub list_push : String → String → Bool → Option ℕ → ℕ → State → StorageResult ℕ × State
  pub list_remove : String → String → ℕ → State → StorageResult Bool × State
  pub list_range : String → ℕ → Option ℕ → ℕ → State → StorageResult (List String) × State
  pub list_len : String → ℕ → State → StorageResult ℕ × State
  pub scan : String → ℕ → ℕ → ℕ → State → StorageResult ScanPage × State

-- A value with this deadline is still there at this instant.
abbrev pub within : Option ℕ → ℕ → Bool
within none t = true
within (some e) t = leb t e

-- What the trait's documentation promises of the scalar operations. `live k t s` is the value
-- that a reader of the key `k` finds at the instant `t` if nothing else is done before. An
-- operation that fails promises nothing but for a read, which never changes what readers find.
pub record StorageLaws (st : SaStorage) : Type 1 where
  pub live : String → ℕ → st.State → Option String
  -- The deadline of a value that is written with a TTL at an instant.
  pub deadline : Option ℕ → ℕ → Option ℕ
  pub deadline-none : (now : ℕ) → deadline none now ≡ none
  -- The longest TTL that the backend honours.
  pub max_ttl : ℕ
  pub deadline-some : (d now : ℕ) → d ≤ max_ttl → deadline (some d) now ≡ some (now + d)
  pub get_lem :
      (k : String) (now : ℕ) (s : st.State) (o : Option String)
      → (st.get k now s).0 ≡ ok o
      → o ≡ live k now s
  pub live-get :
      (k j : String) (now t : ℕ) (s : st.State) → now ≤ t → live j t (st.get k now s).1 ≡ live j t s
  pub live-set :
      (k j v : String) (ttl : Option ℕ) (now t : ℕ) (s : st.State) (u : Unit {0})
      → now ≤ t
      → (st.set k v ttl now s).0 ≡ ok u
      → live j t (st.set k v ttl now s).1
        ≡ (if k == j then (if within (deadline ttl now) t then some v else none) else live j t s)
  pub live-delete :
      (k j : String) (now t : ℕ) (s : st.State) (u : Unit {0})
      → now ≤ t
      → (st.delete k now s).0 ≡ ok u
      → live j t (st.delete k now s).1 ≡ (if k == j then none else live j t s)
  -- `set_if_absent` answers whether the key was free, and writes only then.
  pub set_if_absent_lem :
      (k v : String) (ttl : Option ℕ) (now : ℕ) (s : st.State) (b : Bool)
      → (st.set_if_absent k v ttl now s).0 ≡ ok b
      → b ≡ option_eq (live k now s) none
  pub live-set_if_absent :
      (k j v : String) (ttl : Option ℕ) (now t : ℕ) (s : st.State) (b : Bool)
      → now ≤ t
      → (st.set_if_absent k v ttl now s).0 ≡ ok b
      → live j t (st.set_if_absent k v ttl now s).1 ≡ (
          if b
          then (if k == j
              then (if within (deadline ttl now) t then some v else none)
              else live j t s)
          else live j t s)
  -- `get_del` reads and deletes.
  pub get_del_lem :
      (k : String) (now : ℕ) (s : st.State) (o : Option String)
      → (st.get_del k now s).0 ≡ ok o
      → o ≡ live k now s
  pub live-get_del :
      (k j : String) (now t : ℕ) (s : st.State) (o : Option String)
      → now ≤ t
      → (st.get_del k now s).0 ≡ ok o
      → live j t (st.get_del k now s).1 ≡ (if k == j then none else live j t s)
  -- `compare_and_swap` answers whether the value was the expected one, and writes only then.
  pub compare_and_swap_lem :
      (k : String) (expected : Option String) (v : String) (ttl : Option ℕ) (now : ℕ) (s : st.State)
      (b : Bool)
      → (st.compare_and_swap k expected v ttl now s).0 ≡ ok b
      → b ≡ option_eq (live k now s) expected
  pub live-compare_and_swap :
      (k j : String) (expected : Option String) (v : String) (ttl : Option ℕ) (now t : ℕ)
      (s : st.State) (b : Bool)
      → now ≤ t
      → (st.compare_and_swap k expected v ttl now s).0 ≡ ok b
      → live j t (st.compare_and_swap k expected v ttl now s).1 ≡ (
          if b
          then (if k == j
              then (if within (deadline ttl now) t then some v else none)
              else live j t s)
          else live j t s)
