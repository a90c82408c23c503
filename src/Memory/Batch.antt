-- ===== src/Memory/Batch.antt =====
-- The batch operations of the storage, which go key by key:
-- sa-token-storage-memory/src/lib.rs.
use sa_token_rust.Common.{ℕ, String, Option, List, [], ◌∷◌}
use sa_token_rust.Storage.Defaults.{Step, pure, ◌>>=◌, ◌>>◌}
use sa_token_rust.Memory
use sa_token_rust.Memory.{MemoryStorage}

unfoldable pub mget : List String → Step MemoryStorage (List (Option String))
unfolding Memory.get
mget [] = pure []
mget (key ∷ keys) = do v ← Memory.get key; rest ← mget keys; pure (v ∷ rest)

unfoldable pub mdel : List String → Step MemoryStorage (Unit {0})
unfolding Memory.delete
mdel [] = pure tt
mdel (key ∷ keys) = do Memory.delete key; mdel keys

unfoldable pub mset :
    (ℕ → Option ℕ) → List (String × String) → Option ℕ → Step MemoryStorage (Unit {0})
unfolding Memory.set
mset from_std [] ttl = pure tt
mset from_std ((key, value) ∷ items) ttl = do
  Memory.set from_std key value ttl
  mset from_std items ttl
