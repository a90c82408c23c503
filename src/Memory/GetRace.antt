-- ===== src/Memory/GetRace.antt =====
-- A read of an expired value against a write between its two locks.
use sa_token_rust.Common.{ℕ, String, ◌≡◌, true, Option, none, some, arith, eq_refl}
use sa_token_rust.Storage.{within}
use sa_token_rust.Memory.{
  StorageItem, MemoryStorage, is_expired, scalar, get_item, get_among, deadline, set,
}
use sa_token_rust.Memory.Laws.{live, live-set, live-delete}

-- A reader that met an expired value deletes what another task has written under the key between
-- the reader's two locks: the write is there if the reader is not, and gone if it is.
pub get_among-loses_write :
    (from_std : ℕ → Option ℕ) (k v : String) (ttl : Option ℕ) (now t : ℕ) (it : StorageItem)
    (m : MemoryStorage)
    → scalar k m ≡ some it
    → is_expired it.expire_at now ≡ true
    → within (deadline from_std ttl now) t ≡ true
    → (live k t (set from_std k v ttl now m).1 ≡ some v)
      × (live k t (get_among (λ m. (set from_std k v ttl now m).1) k now m).1 ≡ none)
unfolding get_among get_item
get_among-loses_write from_std k v ttl now t it m there old kept = (
  ground (arith, live-set from_std k k v ttl now t m, eq_refl k),
  rw (there, get_item, old)
      (ground (arith, live-delete k k now t (set from_std k v ttl now m).1, eq_refl k)),
)
