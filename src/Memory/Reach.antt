-- ===== src/Memory/Reach.antt =====
-- Every state that the operations reach from an empty storage is well formed.
use sa_token_rust.Common.{
  ℕ, String, refl, Bool, Option, some, Option-cases, Bool-cases, inl, inr, option_eq,
}
use sa_token_rust.Common.Assoc.{lookup}
use sa_token_rust.Memory.{
  MemoryStorage, is_expired, new, scalar, fresh, delete, get, expire, get_del, compare_and_delete,
  cleanup_expired, clear, count, incr, decr, set, set_if_absent, set_if_free, compare_and_swap,
}
use sa_token_rust.Memory.Lists.{list_push, list_remove, list_remove_in, list_at}
use sa_token_rust.Memory.Invariant.{
  IsWellFormed, put_scalar-IsWellFormed, drop_scalar-IsWellFormed, delete-IsWellFormed,
  get-IsWellFormed, put_list-IsWellFormed, extend-IsWellFormed, cleanup-IsWellFormed,
}

module _ (from_std : ℕ → Option ℕ) where
  -- One operation of the storage, at an instant.
  pub data Step (m : MemoryStorage) : MemoryStorage → Type 0 where
    get_step : (k : String) (now : ℕ) → Step m (get k now m).1
    set_step : (k v : String) (ttl : Option ℕ) (now : ℕ) → Step m (set from_std k v ttl now m).1
    delete_step : (k : String) (now : ℕ) → Step m (delete k now m).1
    expire_step : (k : String) (ttl now : ℕ) → Step m (expire from_std k ttl now m).1
    incr_step : (k : String) (now : ℕ) → Step m (incr k now m).1
    decr_step : (k : String) (now : ℕ) → Step m (decr k now m).1
    clear_step : (now : ℕ) → Step m (clear now m).1
    cleanup_step : (now : ℕ) → Step m (cleanup_expired now m)
    set_if_absent_step :
        (k v : String) (ttl : Option ℕ) (now : ℕ) → Step m (set_if_absent from_std k v ttl now m).1
    get_del_step : (k : String) (now : ℕ) → Step m (get_del k now m).1
    swap_step :
        (k : String) (expected : Option String) (v : String) (ttl : Option ℕ) (now : ℕ)
        → Step m (compare_and_swap from_std k expected v ttl now m).1
    compare_and_delete_step :
        (k expected : String) (now : ℕ) → Step m (compare_and_delete k expected now m).1
    push_step :
        (k member : String) (unique : Bool) (ttl : Option ℕ) (now : ℕ)
        → Step m (list_push from_std k member unique ttl now m).1
    remove_step : (k member : String) (now : ℕ) → Step m (list_remove k member now m).1

  -- The states that are reached from an empty storage.
  pub data Reach : MemoryStorage → Type 0 where
    start : Reach new
    next : {m m' : MemoryStorage} → Reach m → Step m m' → Reach m'

  new-IsWellFormed : IsWellFormed new
  unfolding new lookup
  new-IsWellFormed = record {
    distinct = λ i. tt;
    placed = λ i k ne. refl;
    distinct_lists = λ i. tt;
  }

  expire-IsWellFormed :
      (k : String) (ttl now : ℕ) (m : MemoryStorage)
      → IsWellFormed m
      → IsWellFormed (expire from_std k ttl now m).1
  unfolding expire
  expire-IsWellFormed k ttl now m w = elim (Option-cases (from_std ttl)) [
    | inl e ↦ rw (expire, e) w
    | inr (d, e) ↦ rw (expire, e) (extend-IsWellFormed k _ m w)
  ]

  set_if_absent-IsWellFormed :
      (k v : String) (ttl : Option ℕ) (now : ℕ) (m : MemoryStorage)
      → IsWellFormed m
      → IsWellFormed (set_if_absent from_std k v ttl now m).1
  unfolding set_if_absent
  set_if_absent-IsWellFormed k v ttl now m w = elim (Option-cases (scalar k m)) [
    | inl e ↦ rw (e, set_if_free) (put_scalar-IsWellFormed k _ m w)
    | inr (it, e) ↦ elim (Bool-cases (is_expired it.expire_at now)) [
      | inl old ↦
          rw (e, set_if_free, old) (put_scalar-IsWellFormed k _ _ (drop_scalar-IsWellFormed k m w))
      | inr new ↦ rw (e, set_if_free, new) w
    ]
  ]

  compare_and_swap-IsWellFormed :
      (k : String) (expected : Option String) (v : String) (ttl : Option ℕ) (now : ℕ)
      (m : MemoryStorage)
      → IsWellFormed m
      → IsWellFormed (compare_and_swap from_std k expected v ttl now m).1
  unfolding compare_and_swap
  compare_and_swap-IsWellFormed k expected v ttl now m w =
      elim (Bool-cases (option_eq (fresh (scalar k m) now) expected)) [
        | inl e ↦ rw e (put_scalar-IsWellFormed k _ m w)
        | inr e ↦ rw e w
      ]

  compare_and_delete-IsWellFormed :
      (k expected : String) (now : ℕ) (m : MemoryStorage)
      → IsWellFormed m
      → IsWellFormed (compare_and_delete k expected now m).1
  unfolding compare_and_delete
  compare_and_delete-IsWellFormed k expected now m w =
      elim (Bool-cases (option_eq (fresh (scalar k m) now) (some expected))) [
        | inl e ↦ rw e (drop_scalar-IsWellFormed k m w)
        | inr e ↦ rw e w
      ]

  list_remove-IsWellFormed :
      (k member : String) (now : ℕ) (m : MemoryStorage)
      → IsWellFormed m
      → IsWellFormed (list_remove k member now m).1
  unfolding list_remove
  list_remove-IsWellFormed k member now m w = elim (Option-cases (list_at k m)) [
    | inl e ↦ rw (e, list_remove_in) w
    | inr (l, e) ↦ elim (Bool-cases (is_expired l.expire_at now)) [
      | inl old ↦ rw (e, list_remove_in, old) (put_list-IsWellFormed k _ m w)
      | inr new ↦ rw (e, list_remove_in, new) (put_list-IsWellFormed k _ m w)
    ]
  ]

  Step-IsWellFormed : {m m' : MemoryStorage} → Step m m' → IsWellFormed m → IsWellFormed m'
  unfolding set get_del list_push incr decr count clear lookup
  Step-IsWellFormed {m = m} (get_step k now) w = get-IsWellFormed k now m w
  Step-IsWellFormed {m = m} (set_step k v ttl now) w = put_scalar-IsWellFormed k _ m w
  Step-IsWellFormed {m = m} (delete_step k now) w = delete-IsWellFormed k now m w
  Step-IsWellFormed {m = m} (expire_step k ttl now) w = expire-IsWellFormed k ttl now m w
  Step-IsWellFormed {m = m} (incr_step k now) w = put_scalar-IsWellFormed k _ m w
  Step-IsWellFormed {m = m} (decr_step k now) w = put_scalar-IsWellFormed k _ m w
  Step-IsWellFormed {m = m} (clear_step now) w = record {
    distinct = λ i. tt;
    placed = λ i k ne. refl;
    distinct_lists = λ i. tt;
  }
  Step-IsWellFormed {m = m} (cleanup_step now) w = cleanup-IsWellFormed now m w
  Step-IsWellFormed {m = m} (set_if_absent_step k v ttl now) w =
      set_if_absent-IsWellFormed k v ttl now m w
  Step-IsWellFormed {m = m} (get_del_step k now) w = drop_scalar-IsWellFormed k m w
  Step-IsWellFormed {m = m} (swap_step k expected v ttl now) w =
      compare_and_swap-IsWellFormed k expected v ttl now m w
  Step-IsWellFormed {m = m} (compare_and_delete_step k expected now) w =
      compare_and_delete-IsWellFormed k expected now m w
  Step-IsWellFormed {m = m} (push_step k member unique ttl now) w = put_list-IsWellFormed k _ m w
  Step-IsWellFormed {m = m} (remove_step k member now) w = list_remove-IsWellFormed k member now m w

  -- In every state that the operations reach from an empty storage, whatever their order and
  -- instants, each shard's map of scalars has a key at most once, and so has its map of lists, and a
  -- scalar is only in the shard of its key's index.
  pub Reach-IsWellFormed : {m : MemoryStorage} → Reach m → IsWellFormed m
  Reach-IsWellFormed start = new-IsWellFormed
  Reach-IsWellFormed (next r st) = Step-IsWellFormed st (Reach-IsWellFormed r)
