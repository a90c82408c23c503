-- ===== src/Memory/Laws.antt =====
-- What readers find after each scalar operation, whatever the shard of a key.
use sa_token_rust.Common.{
  ℕ, ◌≤◌, String, ◌≡◌, true, Option, none, some, arith, eq_iff, ◌==◌, if◌then◌else◌, ok, option_eq,
}
use sa_token_rust.Common.Assoc.{lookup-insert, lookup-remove}
use sa_token_rust.Storage.{within}
use sa_token_rust.Memory.{
  StorageItem, MemoryStorage, is_expired, write, scalar, put_scalar, drop_scalar, fresh, delete,
  get, get_del, deadline, item, set, set_if_absent, compare_and_swap,
}
use sa_token_rust.Memory.Shard.{shard_index}

pub scalar-put_scalar :
    (k j : String) (it : StorageItem) (m : MemoryStorage)
    → scalar j (put_scalar k it m) ≡ (if k == j then some it else scalar j m)
unfolding scalar put_scalar write
scalar-put_scalar k j it m =
    ground (arith, eq_iff k j, lookup-insert k j it (m (shard_index k)).scalars)

pub scalar-drop_scalar :
    (k j : String) (m : MemoryStorage)
    → scalar j (drop_scalar k m) ≡ (if k == j then none else scalar j m)
unfolding scalar drop_scalar write
scalar-drop_scalar k j m = ground (arith, eq_iff k j, lookup-remove k j (m (shard_index k)).scalars)

pub scalar-delete :
    (k j : String) (now : ℕ) (m : MemoryStorage)
    → scalar j (delete k now m).1 ≡ (if k == j then none else scalar j m)
unfolding scalar delete write
scalar-delete k j now m = ground (arith, eq_iff k j, lookup-remove k j (m (shard_index k)).scalars)

-- What a reader of a key finds at an instant.
unfoldable pub live : String → ℕ → MemoryStorage → Option String
live k t m = fresh (scalar k m) t

pub get-live : (k : String) (now : ℕ) (m : MemoryStorage) → (get k now m).0 ≡ ok (live k now m)
unfolding get live fresh
get-live k now m = ground arith

fresh_later :
    (it : StorageItem) (now t : ℕ)
    → now ≤ t
    → is_expired it.expire_at now ≡ true
    → fresh (some it) t ≡ none
unfolding fresh
fresh_later it now t h e = ground arith

pub live-get :
    (k j : String) (now t : ℕ) (m : MemoryStorage) → now ≤ t → live j t (get k now m).1 ≡ live j t m
unfolding get live fresh
live-get k j now t m h = ground (arith, scalar-delete k j now m, eq_iff k j)

pub live-delete :
    (k j : String) (now t : ℕ) (m : MemoryStorage)
    → live j t (delete k now m).1 ≡ (if k == j then none else live j t m)
unfolding live fresh
live-delete k j now t m = ground (arith, scalar-delete k j now m)

pub live-get_del :
    (k j : String) (now t : ℕ) (m : MemoryStorage)
    → live j t (get_del k now m).1 ≡ (if k == j then none else live j t m)
unfolding live fresh get_del
live-get_del k j now t m = ground (arith, scalar-drop_scalar k j m)

module _ (from_std : ℕ → Option ℕ) where
  -- A value that is written now is found at a later instant until its deadline.
  pub fresh-item :
      (v : String) (ttl : Option ℕ) (now t : ℕ)
      → fresh (some (item from_std v ttl now)) t
        ≡ (if within (deadline from_std ttl now) t then some v else none)
  unfolding fresh item
  fresh-item v ttl now t = ground arith

  pub live-set :
      (k j v : String) (ttl : Option ℕ) (now t : ℕ) (m : MemoryStorage)
      → live j t (set from_std k v ttl now m).1 ≡ (
          if k == j
          then (if within (deadline from_std ttl now) t then some v else none)
          else live j t m)
  unfolding live set
  live-set k j v ttl now t m =
      ground (arith, scalar-put_scalar k j (item from_std v ttl now) m, fresh-item v ttl now t)

  pub set_if_absent_lem :
      (k v : String) (ttl : Option ℕ) (now : ℕ) (m : MemoryStorage)
      → (set_if_absent from_std k v ttl now m).0 ≡ ok (option_eq (live k now m) none)
  unfolding set_if_absent live fresh
  set_if_absent_lem k v ttl now m = ground arith

  pub live-set_if_absent :
      (k j v : String) (ttl : Option ℕ) (now t : ℕ) (m : MemoryStorage)
      → now ≤ t
      → live j t (set_if_absent from_std k v ttl now m).1 ≡ (
          if option_eq (live k now m) none
          then (if k == j
              then (if within (deadline from_std ttl now) t then some v else none)
              else live j t m)
          else live j t m)
  unfolding live fresh set_if_absent
  live-set_if_absent k j v ttl now t m h = ground (
    arith,
    scalar-put_scalar k j (item from_std v ttl now) m,
    scalar-put_scalar k j (item from_std v ttl now) (drop_scalar k m),
    scalar-drop_scalar k j m,
    fresh-item v ttl now t,
  )

  pub compare_and_swap_lem :
      (k : String) (expected : Option String) (v : String) (ttl : Option ℕ) (now : ℕ)
      (m : MemoryStorage)
      → (compare_and_swap from_std k expected v ttl now m).0
        ≡ ok (option_eq (live k now m) expected)
  unfolding compare_and_swap live
  compare_and_swap_lem k expected v ttl now m = ground arith

  pub live-compare_and_swap :
      (k j : String) (expected : Option String) (v : String) (ttl : Option ℕ) (now t : ℕ)
      (m : MemoryStorage)
      → live j t (compare_and_swap from_std k expected v ttl now m).1 ≡ (
          if option_eq (live k now m) expected
          then (if k == j
              then (if within (deadline from_std ttl now) t then some v else none)
              else live j t m)
          else live j t m)
  unfolding live compare_and_swap
  live-compare_and_swap k j expected v ttl now t m =
      ground (arith, scalar-put_scalar k j (item from_std v ttl now) m, fresh-item v ttl now t)
