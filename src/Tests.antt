-- ===== src/Tests.antt =====
-- Concrete data for the witnesses: the in-memory storage, with a conversion of TTLs that takes
-- every duration and a regular-expression engine that accepts every text.
pub mod StorageTests
pub mod MatchTests
pub mod SsoTests
pub mod OAuth2Tests
pub mod SameTokenTests
pub mod TempTokenTests
pub mod SignTests
pub mod AuthTests
use sa_token_rust.Common.{
  ℕ, ◌^◌, String, ◌≡◌, refl, Bool, true, Option, none, some, Result, ok, err, if◌then◌else◌, arith,
}
use sa_token_rust.Common.Int.{pos}
use sa_token_rust.Storage.{SaStorage, StorageLaws}
use sa_token_rust.Memory.{MemoryStorage, new, set}
use sa_token_rust.Memory.Backend.{memory, memory_laws}
use sa_token_rust.Keys.{SaKeys, three_segment}
use sa_token_rust.Dao.{SaTokenDao, Codec}
use sa_token_rust.Error.{SaTokenResult, internal_error}

abbrev pub from_std : ℕ → Option ℕ
from_std d = some d

abbrev pub regex : String → Result String (String → Bool)
regex pattern = ok (λ key. true)

abbrev pub storage : SaStorage
storage = memory from_std regex

abbrev pub storage_laws : StorageLaws storage
storage_laws = memory_laws from_std regex (2 ^ 60) (λ d h. refl)

abbrev pub dao : SaTokenDao
dao = record {
  keys = record { root = "sa:"; layout = three_segment; token_colon = ":" };
  config = record { timeout = pos 86400; active_timeout = pos 0 };
}

-- A storage with one key and value that never expires.
abbrev pub holding : String → String → MemoryStorage
holding key value = (set from_std key value none 0 new).1

-- The codec of one known value, as `x`: other values are refused.
module _ {T : Type 0} (x₀ : T) (same : T → Bool) (same-eq : (x : T) → same x ≡ true → x₀ ≡ x) where
  abbrev pub encode_known : T → SaTokenResult String
  encode_known x = if same x then ok "x" else err (internal_error "")

  abbrev pub decode_known : String → SaTokenResult T
  decode_known raw = ok x₀

  pub decode-encode_known :
      (x : T) (raw : String) → encode_known x ≡ ok raw → decode_known raw ≡ ok x
  decode-encode_known x raw h = ground (arith, same-eq x)

  abbrev pub known : Codec T
  known = record {
    encode = encode_known;
    decode = decode_known;
    decode-encode = decode-encode_known;
  }
