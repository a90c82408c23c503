-- ===== src/Memory/CleanupLaws.antt =====
-- The background clean-up is invisible to readers.
use sa_token_rust.Common.{ℕ, ◌≤◌, String, ◌≡◌, refl, [], ◌∷◌, arith, eq_iff}
use sa_token_rust.Common.Assoc.{Assoc, lookup}
use sa_token_rust.Memory.{
  StorageItem, ListItem, MemoryStorage, scalar, fresh, fresh_scalars, fresh_lists, cleanup_expired,
}
use sa_token_rust.Memory.Lists.{fresh_members, list_at}
use sa_token_rust.Memory.ListLaws.{members}
use sa_token_rust.Memory.Shard.{shard_index}
use sa_token_rust.Memory.Invariant.{HasDistinctKeys, IsWellFormed}
use sa_token_rust.Memory.Laws.{live}

fresh-fresh_scalars :
    (k : String) (now t : ℕ) (xs : Assoc StorageItem)
    → now ≤ t
    → HasDistinctKeys xs
    → fresh (lookup k (fresh_scalars now xs)) t ≡ fresh (lookup k xs) t
unfolding fresh fresh_scalars lookup
fresh-fresh_scalars k now t [] le h = refl
fresh-fresh_scalars k now t ((j, v) ∷ xs) le h =
    ground (arith, fresh-fresh_scalars k now t xs le h.1, eq_iff j k)

fresh_members-fresh_lists :
    (k : String) (now t : ℕ) (xs : Assoc ListItem)
    → now ≤ t
    → HasDistinctKeys xs
    → fresh_members (lookup k (fresh_lists now xs)) t ≡ fresh_members (lookup k xs) t
unfolding fresh_members fresh_lists lookup
fresh_members-fresh_lists k now t [] le h = refl
fresh_members-fresh_lists k now t ((j, v) ∷ xs) le h =
    ground (arith, fresh_members-fresh_lists k now t xs le h.1, eq_iff j k)

-- In a well-formed storage the clean-up changes nothing that a reader finds at once or later: no
-- value of a scalar, and no members of a list.
pub live-cleanup_expired :
    (k : String) (now t : ℕ) (m : MemoryStorage)
    → IsWellFormed m
    → now ≤ t
    → (live k t (cleanup_expired now m) ≡ live k t m)
      × (members k t (cleanup_expired now m) ≡ members k t m)
unfolding live members cleanup_expired scalar list_at
live-cleanup_expired k now t m w le = (
  fresh-fresh_scalars k now t (m (shard_index k)).scalars le (w.distinct (shard_index k)),
  fresh_members-fresh_lists k now t (m (shard_index k)).lists le (w.distinct_lists (shard_index k)),
)
