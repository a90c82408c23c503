-- ===== src/Memory/Frames.antt =====
-- The operations of the in-memory storage are about their own keys:
-- sa-token-storage-memory/src/lib.rs.
use sa_token_rust.Common.{
  ℕ, ◌≤◌, String, ◌≡◌, ◌≢◌, refl, Bool, Option, none, some, arith, eq_iff, Bool-cases, inl, inr,
  option_eq,
}
use sa_token_rust.Storage.Frames.{StorageFrames}
use sa_token_rust.Common.{Result}
use sa_token_rust.Memory.{
  MemoryStorage, ListItem, write, scalar, delete, set, compare_and_delete, is_expired, drop_scalar,
  fresh,
}
use sa_token_rust.Memory.Lists.{put_list, list_push, list_remove, list_remove_in, list_range}
use sa_token_rust.Memory.Laws.{live, live-set, live-delete, scalar-drop_scalar}
use sa_token_rust.Memory.Backend.{memory_laws}

-- A list is no scalar.
live-put_list :
    (k j : String) (l : ListItem) (t : ℕ) (m : MemoryStorage)
    → live j t (put_list k l m) ≡ live j t m
unfolding live put_list scalar write
live-put_list k j l t m = ground arith

live-list_remove_in :
    (o : Option ListItem) (k j member : String) (now t : ℕ) (m : MemoryStorage)
    → live j t (list_remove_in o k member now m).1 ≡ live j t m
unfolding list_remove_in
live-list_remove_in none k j member now t m = refl
live-list_remove_in (some l) k j member now t m = elim (Bool-cases (is_expired l.expire_at now)) [
  | inl e ↦ rw e (live-put_list k j _ t m)
  | inr e ↦ rw e (live-put_list k j _ t m)
]

live-drop_scalar :
    (k j : String) (t : ℕ) (m : MemoryStorage) → k ≢ j → live j t (drop_scalar k m) ≡ live j t m
unfolding live
live-drop_scalar k j t m ne = ground (arith, scalar-drop_scalar k j m, eq_iff k j)

live-compare_and_delete :
    (k j expected : String) (now t : ℕ) (m : MemoryStorage)
    → k ≢ j
    → live j t (compare_and_delete k expected now m).1 ≡ live j t m
unfolding compare_and_delete
live-compare_and_delete k j expected now t m ne =
    elim (Bool-cases (option_eq (fresh (scalar k m) now) (some expected))) [
      | inl e ↦ rw e (live-drop_scalar k j t m ne)
      | inr e ↦ rw e
    ]

module _ (from_std : ℕ → Option ℕ) where
  other-set :
      (k j v : String) (ttl : Option ℕ) (now t : ℕ) (m : MemoryStorage)
      → k ≢ j
      → live j t (set from_std k v ttl now m).1 ≡ live j t m
  other-set k j v ttl now t m ne = ground (arith, live-set from_std k j v ttl now t m, eq_iff k j)

  live-list_push :
      (k j member : String) (unique : Bool) (ttl : Option ℕ) (now t : ℕ) (m : MemoryStorage)
      → live j t (list_push from_std k member unique ttl now m).1 ≡ live j t m
  unfolding list_push
  live-list_push k j member unique ttl now t m = live-put_list k j _ t m

live-list_remove :
    (k j member : String) (now t : ℕ) (m : MemoryStorage)
    → live j t (list_remove k member now m).1 ≡ live j t m
unfolding list_remove
live-list_remove k j member now t m = live-list_remove_in _ k j member now t m

other-delete :
    (k j : String) (now t : ℕ) (m : MemoryStorage)
    → k ≢ j
    → live j t (delete k now m).1 ≡ live j t m
other-delete k j now t m ne = ground (arith, live-delete k j now t m, eq_iff k j)

module _ (from_std : ℕ → Option ℕ) (regex : String → Result String (String → Bool)) (longest : ℕ)
    (in_range : (d : ℕ) → d ≤ longest → from_std d ≡ some d) where
  -- Every operation of the in-memory storage leaves the other keys alone.
  pub memory-StorageFrames : StorageFrames (memory_laws from_std regex longest in_range)
  unfolding memory_laws list_range
  memory-StorageFrames = record {
    frame-set = λ k j v ttl now t s ne h. other-set from_std k j v ttl now t s ne;
    frame-delete = λ k j now t s ne h. other-delete k j now t s ne;
    frame-compare_and_delete =
        λ k j expected now t s ne h. live-compare_and_delete k j expected now t s ne;
    frame-list_push =
        λ k j member unique ttl now t s ne h. live-list_push from_std k j member unique ttl now t s;
    frame-list_remove = λ k j member now t s ne h. live-list_remove k j member now t s;
    frame-list_range = λ k j start limit now t s ne h. refl;
  }
