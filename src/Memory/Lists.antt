-- ===== src/Memory/Lists.antt =====
-- The list operations of the in-memory storage.
use sa_token_rust.Common.{
  ℕ, ◌+◌, String, Bool, false, Option, none, some, List, [], ◌∷◌, ◌++◌, ◌&&◌, not, ok, ltb,
  if◌then◌else◌, ◌==◌, length, retain, contains, take, drop,
}
use sa_token_rust.Common.Assoc.{lookup, insert}
use sa_token_rust.Storage.{StorageResult}
use sa_token_rust.Memory.{ListItem, MemoryStorage, is_expired, write}
use sa_token_rust.Memory.Shard.{shard_index}

unfoldable pub list_at : String → MemoryStorage → Option ListItem
list_at key m = lookup key (m (shard_index key)).lists

unfoldable pub put_list : String → ListItem → MemoryStorage → MemoryStorage
unfolding write
put_list key l m =
    let s = m (shard_index key) in write key (record s { lists = insert key l s.lists }) m

abbrev pub default_list : ListItem
default_list = record { members = []; expire_at = none }

-- `entry(key).or_default()`, with the members of an expired list cleared.
unfoldable pub renewed : Option ListItem → ℕ → ListItem
renewed none now = default_list
renewed (some l) now = if is_expired l.expire_at now then default_list else l

unfoldable pub list_remove_in :
    Option ListItem → String → String → ℕ → MemoryStorage → StorageResult Bool × MemoryStorage
list_remove_in none key member now m = (ok false, m)
list_remove_in (some entry) key member now m =
    let kept = retain (λ x. not (x == member)) entry.members in
    if is_expired entry.expire_at now
    then (ok false, put_list key (record entry { members = [] }) m)
    else (
      ok (ltb (length kept) (length entry.members)),
      put_list key (record entry { members = kept }) m,
    )

unfoldable pub list_remove :
    String → String → ℕ → MemoryStorage → StorageResult Bool × MemoryStorage
unfolding list_remove_in list_at put_list
list_remove key member now m = list_remove_in (list_at key m) key member now m

-- The members of a list that is there and has not expired.
unfoldable pub fresh_members : Option ListItem → ℕ → List String
fresh_members none now = []
fresh_members (some l) now = if is_expired l.expire_at now then [] else l.members

unfoldable pub slice : ℕ → Option ℕ → List String → List String
slice start none xs = drop start xs
slice start (some limit) xs = take limit (drop start xs)

unfoldable pub list_range :
    String → ℕ → Option ℕ → ℕ → MemoryStorage → StorageResult (List String) × MemoryStorage
unfolding fresh_members slice list_at
list_range key start limit now m = (ok (slice start limit (fresh_members (list_at key m) now)), m)

unfoldable pub list_len : String → ℕ → MemoryStorage → StorageResult ℕ × MemoryStorage
unfolding fresh_members list_at
list_len key now m = (ok (length (fresh_members (list_at key m) now)), m)

module _ (from_std : ℕ → Option ℕ) where
  -- `touch_ttl`: a TTL in range gives a new deadline, and anything else keeps the old one.
  unfoldable pub touch_ttl : Option ℕ → ℕ → ListItem → ListItem
  touch_ttl none now l = l
  touch_ttl (some d) now l = elim (from_std d) [
    | none ↦ l
    | some delta ↦ record l { expire_at = some (now + delta) }
  ]

  -- `list_push` on the entry.
  unfoldable pub pushed : String → Bool → Option ℕ → ℕ → ListItem → ListItem
  unfolding touch_ttl
  pushed member unique ttl now entry =
      if unique && contains entry.members member
      then touch_ttl ttl now entry
      else touch_ttl ttl now (record entry { members = entry.members ++ member ∷ [] })

  unfoldable pub list_push :
      String → String → Bool → Option ℕ → ℕ → MemoryStorage → StorageResult ℕ × MemoryStorage
  unfolding renewed pushed list_at put_list
  list_push key member unique ttl now m =
      let entry = pushed member unique ttl now (renewed (list_at key m) now) in
      (ok (length entry.members), put_list key entry m)
