-- ===== src/Memory.antt =====
-- The in-memory storage: sa-token-storage-memory/src/lib.rs.
--
-- The sixteen shards are a function of the shard's index. Each operation but `get` holds the
-- lock of one shard for its whole body, so it is one step here; `get` takes a second lock to
-- delete an item that has expired. `cleanup_expired`, `clear` and `scan` visit the shards one after
-- another and are modelled without operations in between.
-- `chrono::Duration::from_std`, which fails for a duration out of range, is the parameter
-- `from_std`, and `regex` is the parameter `regex`.
pub mod Answers
pub mod Batch
pub mod Shard
pub mod Lists
pub mod Scan
pub mod Laws
pub mod Backend
pub mod Frames
pub mod Further
pub mod Invariant
pub mod Reach
pub mod ScanOrder
pub mod ScanLaws
pub mod ListLaws
pub mod CleanupLaws
pub mod GetRace
use sa_token_rust.Common.{
  ℕ, ◌+◌, ◌-◌, ◌<◌, String, Bool, true, false, Option, none, some, List, [], ◌∷◌, ◌&&◌, not, Result,
  ok, if◌then◌else◌, ltb, eqb, option_eq, ◌==◌, is_some, length, retain,
}
use sa_token_rust.Common.Assoc.{Assoc, lookup, insert, remove}
use sa_token_rust.Common.Int.{ℤ, pos, or_zero, succ_i64, pred_i64}
use sa_token_rust.Common.Decimal.{parse, print}
use sa_token_rust.Storage.{StorageResult}
use Shard.{shard_index}

pub record StorageItem : Type 0 where
  pub value : String
  pub expire_at : Option ℕ

pub record ListItem : Type 0 where
  pub members : List String
  pub expire_at : Option ℕ

pub record MemoryState : Type 0 where
  pub scalars : Assoc StorageItem
  pub lists : Assoc ListItem

-- `MemoryStorage`: the shards.
abbrev pub MemoryStorage : Type 0
MemoryStorage = ℕ → MemoryState

-- `expire_at.is_some_and(|t| Utc::now() > t)`, the test of both kinds of item.
abbrev pub is_expired : Option ℕ → ℕ → Bool
is_expired none now = false
is_expired (some t) now = ltb t now

unfoldable pub new : MemoryStorage
new i = record { scalars = []; lists = [] }

-- The lock's shard is written back.
unfoldable pub write : String → MemoryState → MemoryStorage → MemoryStorage
write key shard m i = if eqb i (shard_index key) then shard else m i

unfoldable pub scalar : String → MemoryStorage → Option StorageItem
scalar key m = lookup key (m (shard_index key)).scalars

-- `scalars.insert` and `scalars.remove` in the key's shard.
unfoldable pub put_scalar : String → StorageItem → MemoryStorage → MemoryStorage
put_scalar key item m =
    let s = m (shard_index key) in write key (record s { scalars = insert key item s.scalars }) m

unfoldable pub drop_scalar : String → MemoryStorage → MemoryStorage
drop_scalar key m =
    let s = m (shard_index key) in write key (record s { scalars = remove key s.scalars }) m

-- The value of an item that is there and has not expired.
unfoldable pub fresh : Option StorageItem → ℕ → Option String
fresh none now = none
fresh (some item) now = if is_expired item.expire_at now then none else some item.value

unfoldable pub delete : String → ℕ → MemoryStorage → StorageResult (Unit {0}) × MemoryStorage
delete key now m =
    let s = m (shard_index key) in
    (ok tt, write key (record { scalars = remove key s.scalars; lists = remove key s.lists }) m)

-- An expired item is deleted under a second lock: `others` is what other tasks do to the storage
-- between the two.
get_item :
    (MemoryStorage → MemoryStorage)
    → Option StorageItem
    → String
    → ℕ
    → MemoryStorage
    → StorageResult (Option String) × MemoryStorage
get_item others none key now m = (ok none, m)
get_item others (some item) key now m =
    if not (is_expired item.expire_at now)
    then (ok (some item.value), m)
    else (ok none, (delete key now (others m)).1)

unfoldable pub get_among :
    (MemoryStorage → MemoryStorage)
    → String
    → ℕ
    → MemoryStorage
    → StorageResult (Option String) × MemoryStorage
unfolding get_item delete scalar
get_among others key now m = get_item others (scalar key m) key now m

-- `get` without another task in between.
unfoldable pub get : String → ℕ → MemoryStorage → StorageResult (Option String) × MemoryStorage
unfolding get_among
get = get_among (λ m. m)

unfoldable pub exists_in : Option StorageItem → Option ListItem → ℕ → Bool
exists_in (some item) l now = not (is_expired item.expire_at now)
exists_in none (some l) now = not (is_expired l.expire_at now) && not (eqb (length l.members) 0)
exists_in none none now = false

unfoldable pub exists : String → ℕ → MemoryStorage → StorageResult Bool × MemoryStorage
unfolding exists_in scalar
exists key now m = (ok (exists_in (scalar key m) (lookup key (m (shard_index key)).lists) now), m)

unfoldable pub get_del : String → ℕ → MemoryStorage → StorageResult (Option String) × MemoryStorage
unfolding fresh scalar drop_scalar
get_del key now m = (ok (fresh (scalar key m) now), drop_scalar key m)

unfoldable pub compare_and_delete :
    String → String → ℕ → MemoryStorage → StorageResult Bool × MemoryStorage
unfolding fresh scalar drop_scalar
compare_and_delete key expected now m =
    let same = option_eq (fresh (scalar key m) now) (some expected) in
    (ok same, if same then drop_scalar key m else m)

unfoldable pub remaining : Option ℕ → ℕ → Option ℕ
remaining none now = none
remaining (some exp) now = if ltb now exp then some (exp - now) else some 0

-- `scalars.get(key).and_then(expire_at)`, or else that of the list.
unfoldable pub deadline_of : Option StorageItem → Option ListItem → Option ℕ
deadline_of (some record_item) l = elim record_item.expire_at [
  | some t ↦ some t
  | none ↦ elim l [ none ↦ none | some list ↦ list.expire_at ]
]
deadline_of none none = none
deadline_of none (some list) = list.expire_at

unfoldable pub ttl : String → ℕ → MemoryStorage → StorageResult (Option ℕ) × MemoryStorage
unfolding remaining deadline_of scalar
ttl key now m =
    (ok (remaining (deadline_of (scalar key m) (lookup key (m (shard_index key)).lists)) now), m)

-- The fields of every shard that have not expired.
unfoldable pub fresh_scalars : ℕ → Assoc StorageItem → Assoc StorageItem
fresh_scalars now = retain (λ e. not (is_expired (e.1).expire_at now))

unfoldable pub fresh_lists : ℕ → Assoc ListItem → Assoc ListItem
fresh_lists now = retain (λ e. not (is_expired (e.1).expire_at now))

unfoldable pub cleanup_expired : ℕ → MemoryStorage → MemoryStorage
unfolding fresh_scalars fresh_lists
cleanup_expired now m i = record {
  scalars = fresh_scalars now (m i).scalars;
  lists = fresh_lists now (m i).lists;
}

-- The number that a live item holds, or else zero.
unfoldable pub number : Option String → ℤ
unfolding parse
number none = pos 0
number (some raw) = or_zero (parse 63 raw)

-- `incr` and `decr`, by the change of the number; the new item has no deadline.
unfoldable pub count : (ℤ → ℤ) → String → ℕ → MemoryStorage → StorageResult ℤ × MemoryStorage
unfolding number fresh scalar put_scalar print
count change key now m =
    let new_value = change (number (fresh (scalar key m) now)) in
    (ok new_value, put_scalar key (record { value = print new_value; expire_at = none }) m)

unfoldable pub incr : String → ℕ → MemoryStorage → StorageResult ℤ × MemoryStorage
unfolding count succ_i64
incr = count succ_i64

unfoldable pub decr : String → ℕ → MemoryStorage → StorageResult ℤ × MemoryStorage
unfolding count pred_i64
decr = count pred_i64

unfoldable pub clear : ℕ → MemoryStorage → StorageResult (Unit {0}) × MemoryStorage
clear now m = (ok tt, λ i. record { scalars = []; lists = [] })

-- `get_mut(key)` with a new deadline, of a scalar and of a list.
unfoldable pub extend : String → ℕ → MemoryState → MemoryState
extend key exp s = record {
  scalars = elim (lookup key s.scalars) [
    | none ↦ s.scalars
    | some it ↦ insert key (record it { expire_at = some exp }) s.scalars
  ];
  lists = elim (lookup key s.lists) [
    | none ↦ s.lists
    | some l ↦ insert key (record l { expire_at = some exp }) s.lists
  ];
}

-- What depends on the conversion of a TTL to a `chrono` duration.
module _ (from_std : ℕ → Option ℕ) where
  -- The deadline that a TTL gives: none without a TTL or with one out of range.
  unfoldable pub deadline : Option ℕ → ℕ → Option ℕ
  deadline none now = none
  deadline (some d) now = elim (from_std d) [ none ↦ none | some delta ↦ some (now + delta) ]

  -- `StorageItem::new`.
  unfoldable pub item : String → Option ℕ → ℕ → StorageItem
  unfolding deadline
  item value ttl now = record { value = value; expire_at = deadline ttl now }

  unfoldable pub set :
      String → String → Option ℕ → ℕ → MemoryStorage → StorageResult (Unit {0}) × MemoryStorage
  unfolding item put_scalar
  set key value ttl now m = (ok tt, put_scalar key (item value ttl now) m)

  unfoldable pub expire : String → ℕ → ℕ → MemoryStorage → StorageResult (Unit {0}) × MemoryStorage
  unfolding extend
  expire key ttl now m = elim (from_std ttl) [
    | none ↦ (ok tt, m)
    | some delta ↦ (ok tt, write key (extend key (now + delta) (m (shard_index key))) m)
  ]

  set_if_free :
      Option StorageItem
      → String
      → String
      → Option ℕ
      → ℕ
      → MemoryStorage
      → StorageResult Bool × MemoryStorage
  set_if_free none key value ttl now m = (ok true, put_scalar key (item value ttl now) m)
  set_if_free (some existing) key value ttl now m =
      if not (is_expired existing.expire_at now)
      then (ok false, m)
      else (ok true, put_scalar key (item value ttl now) (drop_scalar key m))

  unfoldable pub set_if_absent :
      String → String → Option ℕ → ℕ → MemoryStorage → StorageResult Bool × MemoryStorage
  unfolding set_if_free item put_scalar drop_scalar scalar
  set_if_absent key value ttl now m = set_if_free (scalar key m) key value ttl now m

  unfoldable pub compare_and_swap :
      String
      → Option String
      → String
      → Option ℕ
      → ℕ
      → MemoryStorage
      → StorageResult Bool × MemoryStorage
  unfolding fresh item put_scalar scalar
  compare_and_swap key expected new_value ttl now m =
      if not (option_eq (fresh (scalar key m) now) expected)
      then (ok false, m)
      else (ok true, put_scalar key (item new_value ttl now) m)
