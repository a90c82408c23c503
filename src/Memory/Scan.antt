-- ===== src/Memory/Scan.antt =====
-- `scan`: a page of the sorted keys that match a glob.
use Prim.Native.Char.{Char, code}
use Prim.Native.String
use Prim.Native.String.compare
use Prim.Native.Nat.{Ordering, min}
use sa_token_rust.Common.{
  ℕ, zero, suc, ◌+◌, ◌-◌, String, Bool, true, false, List, [], ◌∷◌, ◌++◌, not, Result, ok, err, leb,
  eqb, if◌then◌else◌, ◌==◌, length, retain, take, drop,
}
use sa_token_rust.Common.Assoc.{Assoc}
use sa_token_rust.Common.Text.{◌<>◌, has_char}
use sa_token_rust.Storage.{StorageResult, ScanPage, operation_failed}
use sa_token_rust.Memory.{StorageItem, MemoryStorage, is_expired}
use sa_token_rust.Memory.Shard.{shard_count}

-- The characters that `glob_to_regex` escapes.
abbrev meta : String
meta = ".^$+{}[]|()\\"

glob_char : Char → String
glob_char ch =
    let c = code ch in
    if eqb c b'*'
    then ".*"
    else if eqb c b'?'
    then "."
    else if has_char c meta
    then "\\" <> (String.◌∷◌ ch String.[])
    else String.◌∷◌ ch String.[]

glob_body : String → String
unfolding glob_char has_char
glob_body String.[] = String.[]
glob_body (String.◌∷◌ ch rest) = glob_char ch <> glob_body rest

unfoldable pub glob_to_regex : String → String
unfolding glob_body
glob_to_regex pattern = "^" <> glob_body pattern <> "$"

-- `keys.sort()`: the order of the bytes, which is that of the code points.
unfoldable pub before : String → String → Bool
before a b = elim (String.compare a b) [ Ordering.gt ↦ false | _ ↦ true ]

unfoldable pub place : String → List String → List String
unfolding before
place k [] = k ∷ []
place k (x ∷ xs) = let rest = place k xs in if before k x then k ∷ x ∷ xs else x ∷ rest

unfoldable pub sort : List String → List String
unfolding place
sort [] = []
sort (k ∷ ks) = place k (sort ks)

-- `keys.dedup()`: of equal neighbours the first stays.
unfoldable pub dedup_after : String → List String → List String
dedup_after k [] = []
dedup_after k (x ∷ xs) =
    let same = dedup_after k xs in
    let other = dedup_after x xs in if k == x then same else x ∷ other

unfoldable pub dedup : List String → List String
unfolding dedup_after
dedup [] = []
dedup (k ∷ ks) = k ∷ dedup_after k ks

-- The keys of one shard that have not expired.
unfoldable pub live_keys : ℕ → Assoc StorageItem → List String
live_keys now [] = []
live_keys now ((k, v) ∷ rest) =
    let keys = live_keys now rest in if not (is_expired v.expire_at now) then k ∷ keys else keys

unfoldable pub collect : ℕ → ℕ → MemoryStorage → List String
unfolding live_keys
collect zero now m = []
collect (suc i) now m = collect i now m ++ live_keys now (m i).scalars

-- The keys of all shards that a test accepts, in order.
unfoldable pub matching : (String → Bool) → ℕ → MemoryStorage → List String
unfolding sort dedup collect
matching is_match now m = retain is_match (dedup (sort (collect shard_count now m)))

-- The page of a list of keys that begins at a cursor.
unfoldable pub page : List String → ℕ → ℕ → ScanPage
page keys start limit =
    let last = min (start + limit) (length keys) in
    if leb (length keys) start then record { keys = []; next_cursor = 0 } else record {
      keys = take (last - start) (drop start keys);
      next_cursor = if leb (length keys) last then 0 else last;
    }

module _ (regex : String → Result String (String → Bool)) where
  unfoldable pub scan : String → ℕ → ℕ → ℕ → MemoryStorage → StorageResult ScanPage × MemoryStorage
  unfolding page matching glob_to_regex
  scan pattern cursor limit now m = elim (regex (glob_to_regex pattern)) [
    | err e ↦ (err (operation_failed ("Invalid pattern: " <> e)), m)
    | ok is_match ↦ (ok (page (matching is_match now m) cursor limit), m)
  ]
