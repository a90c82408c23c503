-- ===== src/Memory/Invariant.antt =====
-- The shards stay well formed: a map has a key once, and a key is in the shard of its index.
use sa_token_rust.Common.{
  ℕ, String, ◌≡◌, ◌≢◌, refl, Bool, none, [], ◌∷◌, arith, eq_iff, Option-cases, Bool-cases, inl, inr,
  retain,
}
use sa_token_rust.Common.Assoc.{Assoc, lookup, insert, remove, lookup-insert, lookup-remove}
use sa_token_rust.Memory.{
  StorageItem, ListItem, get_item, MemoryState, MemoryStorage, is_expired, new, write, scalar,
  put_scalar, drop_scalar, delete, get, extend, cleanup_expired,
}
use sa_token_rust.Memory.Lists.{put_list}
use sa_token_rust.Memory.Shard.{shard_index}

module _ {ℓ} {V : Type ℓ} where
  abbrev pub HasDistinctKeys : Assoc V → Type ℓ
  HasDistinctKeys [] = Unit
  HasDistinctKeys ((k, v) ∷ m) = (lookup k m ≡ none) × HasDistinctKeys m

  remove-HasDistinctKeys :
      (k : String) (m : Assoc V) → HasDistinctKeys m → HasDistinctKeys (remove k m)
  unfolding remove
  remove-HasDistinctKeys k [] h = h
  remove-HasDistinctKeys k ((j, v) ∷ m) h =
      ground (arith, remove-HasDistinctKeys k m h.1, lookup-remove k j m)

  insert-HasDistinctKeys :
      (k : String) (v : V) (m : Assoc V) → HasDistinctKeys m → HasDistinctKeys (insert k v m)
  unfolding insert
  insert-HasDistinctKeys k v m h =
      (rw lookup-remove (ground (arith, eq_iff k k)), remove-HasDistinctKeys k m h)

  lookup-retain :
      (p : String × V → Bool) (k : String) (m : Assoc V)
      → lookup k m ≡ none
      → lookup k (retain p m) ≡ none
  unfolding lookup
  lookup-retain p k [] h = refl
  lookup-retain p k ((j, v) ∷ m) h = ground (arith, lookup-retain p k m)

  retain-HasDistinctKeys :
      (p : String × V → Bool) (m : Assoc V) → HasDistinctKeys m → HasDistinctKeys (retain p m)
  retain-HasDistinctKeys p [] h = h
  retain-HasDistinctKeys p ((j, v) ∷ m) h =
      ground (arith, retain-HasDistinctKeys p m h.1, lookup-retain p j m h.0)

pub record IsWellFormed (m : MemoryStorage) : Type 0 where
  pub distinct : (i : ℕ) → HasDistinctKeys (m i).scalars
  pub placed : (i : ℕ) (k : String) → i ≢ shard_index k → lookup k (m i).scalars ≡ none
  pub distinct_lists : (i : ℕ) → HasDistinctKeys (m i).lists

-- The write of one shard keeps the rest.
write-IsWellFormed :
    (k : String) (s : MemoryState) (m : MemoryStorage)
    → IsWellFormed m
    → HasDistinctKeys s.scalars
    → ((j : String) → shard_index k ≢ shard_index j → lookup j s.scalars ≡ none)
    → HasDistinctKeys s.lists
    → IsWellFormed (write k s m)
unfolding write
write-IsWellFormed k s m w d p l = record {
  distinct = λ i. ground (arith, w.distinct i);
  placed = λ i j ne. ground (arith, w.placed i j, p j);
  distinct_lists = λ i. ground (arith, w.distinct_lists i);
}

lookup-insert_other :
    (k j : String) (v : StorageItem) (m : MemoryStorage)
    → IsWellFormed m
    → shard_index k ≢ shard_index j
    → lookup j (insert k v (m (shard_index k)).scalars) ≡ none
lookup-insert_other k j v m w ne =
    ground (
      arith,
      lookup-insert k j v (m (shard_index k)).scalars,
      w.placed (shard_index k) j,
      eq_iff k j,
    )

lookup-remove_other :
    (k j : String) (m : MemoryStorage)
    → IsWellFormed m
    → shard_index k ≢ shard_index j
    → lookup j (remove k (m (shard_index k)).scalars) ≡ none
lookup-remove_other k j m w ne =
    ground (arith, lookup-remove k j (m (shard_index k)).scalars, w.placed (shard_index k) j)

pub put_scalar-IsWellFormed :
    (k : String) (v : StorageItem) (m : MemoryStorage)
    → IsWellFormed m
    → IsWellFormed (put_scalar k v m)
unfolding put_scalar
put_scalar-IsWellFormed k v m w =
    write-IsWellFormed k _ m w (insert-HasDistinctKeys k v _ (w.distinct (shard_index k)))
      (λ j ne. lookup-insert_other k j v m w ne) (w.distinct_lists (shard_index k))

pub drop_scalar-IsWellFormed :
    (k : String) (m : MemoryStorage) → IsWellFormed m → IsWellFormed (drop_scalar k m)
unfolding drop_scalar
drop_scalar-IsWellFormed k m w =
    write-IsWellFormed k _ m w (remove-HasDistinctKeys k _ (w.distinct (shard_index k)))
      (λ j ne. lookup-remove_other k j m w ne) (w.distinct_lists (shard_index k))

pub delete-IsWellFormed :
    (k : String) (now : ℕ) (m : MemoryStorage) → IsWellFormed m → IsWellFormed (delete k now m).1
unfolding delete
delete-IsWellFormed k now m w =
    write-IsWellFormed k _ m w (remove-HasDistinctKeys k _ (w.distinct (shard_index k)))
      (λ j ne. lookup-remove_other k j m w ne)
      (remove-HasDistinctKeys k _ (w.distinct_lists (shard_index k)))

-- A write that leaves the scalars of the shard alone.
same_scalars-IsWellFormed :
    (k : String) (s : MemoryState) (m : MemoryStorage)
    → s.scalars ≡ (m (shard_index k)).scalars
    → HasDistinctKeys s.lists
    → IsWellFormed m
    → IsWellFormed (write k s m)
same_scalars-IsWellFormed k s m e l w =
    write-IsWellFormed k s m w (rw e (w.distinct (shard_index k)))
      (λ j ne. rw e (w.placed (shard_index k) j ne)) l

pub put_list-IsWellFormed :
    (k : String) (l : ListItem) (m : MemoryStorage) → IsWellFormed m → IsWellFormed (put_list k l m)
unfolding put_list
put_list-IsWellFormed k l m w =
    same_scalars-IsWellFormed k _ m refl
      (insert-HasDistinctKeys k l _ (w.distinct_lists (shard_index k))) w

-- The list of a key with a new deadline.
extended_lists :
    (k : String) (exp : ℕ) (s : MemoryState)
    → HasDistinctKeys s.lists
    → HasDistinctKeys (extend k exp s).lists
unfolding extend
extended_lists k exp s h = elim (Option-cases (lookup k s.lists)) [
  | inl missing ↦ rw (extend, missing) h
  | inr (l, found) ↦ rw (extend, found) (insert-HasDistinctKeys k _ _ h)
]

extended_scalars :
    (k : String) (exp : ℕ) (m : MemoryStorage)
    → IsWellFormed m
    → HasDistinctKeys (extend k exp (m (shard_index k))).scalars
      × ((j : String)
          → shard_index k ≢ shard_index j
          → lookup j (extend k exp (m (shard_index k))).scalars ≡ none)
unfolding extend
extended_scalars k exp m w = elim (Option-cases (lookup k (m (shard_index k)).scalars)) [
  | inl missing ↦
      rw (extend, missing) ((w.distinct (shard_index k), λ j ne. w.placed (shard_index k) j ne))
  | inr (it, found) ↦
      rw (extend, found)
        ((
          insert-HasDistinctKeys k _ _ (w.distinct (shard_index k)),
          λ j ne. lookup-insert_other k j _ m w ne,
        ))
]

pub extend-IsWellFormed :
    (k : String) (exp : ℕ) (m : MemoryStorage)
    → IsWellFormed m
    → IsWellFormed (write k (extend k exp (m (shard_index k))) m)
extend-IsWellFormed k exp m w =
    let (distinct, placed) = extended_scalars k exp m w in
    write-IsWellFormed k _ m w distinct placed
      (extended_lists k exp (m (shard_index k)) (w.distinct_lists (shard_index k)))

pub get-IsWellFormed :
    (k : String) (now : ℕ) (m : MemoryStorage) → IsWellFormed m → IsWellFormed (get k now m).1
unfolding get
get-IsWellFormed k now m w = elim (Option-cases (scalar k m)) [
  | inl missing ↦ rw (missing, get_item) w
  | inr (it, found) ↦ elim (Bool-cases (is_expired it.expire_at now)) [
    | inl old ↦ rw (found, get_item, old) (delete-IsWellFormed k now m w)
    | inr new ↦ rw (found, get_item, new) w
  ]
]

pub cleanup-IsWellFormed :
    (now : ℕ) (m : MemoryStorage) → IsWellFormed m → IsWellFormed (cleanup_expired now m)
unfolding cleanup_expired
cleanup-IsWellFormed now m w = record {
  distinct = λ i. retain-HasDistinctKeys _ _ (w.distinct i);
  placed = λ i k ne. lookup-retain _ k _ (w.placed i k ne);
  distinct_lists = λ i. retain-HasDistinctKeys _ _ (w.distinct_lists i);
}
