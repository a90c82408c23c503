-- ===== src/Tests/StorageTests.antt =====
-- Witnesses on the in-memory storage.
use sa_token_rust.Common.{
  ℕ, ◌<◌, String, ◌≡◌, refl, Bool, true, Option, none, some, List, [], ◌∷◌, ◌++◌, ok, ◌==◌, ◌&&◌,
  if◌then◌else◌, not, retain, contains, length, is_some, arith,
}
use sa_token_rust.Storage.Defaults.{scan_all_keys}
use sa_token_rust.Memory.{StorageItem, MemoryStorage, new, set, get_among, cleanup_expired}
use sa_token_rust.Memory.Lists.{list_push, list_remove}
use sa_token_rust.Memory.ListLaws.{members, members-list_remove, list_push-members}
use sa_token_rust.Memory.Laws.{live}
use sa_token_rust.Memory.Shard.{shard_index, shard_count, shard_index-lt}
use sa_token_rust.Memory.Scan.{matching}
use sa_token_rust.Memory.ScanLaws.{contains-matching, scan_all_keys_lem}
use sa_token_rust.Memory.ScanOrder.{Ascending}
use sa_token_rust.Memory.Invariant.{IsWellFormed}
use sa_token_rust.Memory.Reach
use sa_token_rust.Memory.Reach.{Reach, Reach-IsWellFormed}
use sa_token_rust.Memory.CleanupLaws.{live-cleanup_expired}
use sa_token_rust.Memory.GetRace.{get_among-loses_write}
use sa_token_rust.Tests.{from_std, regex, storage}

-- "a" for ten instants, then "b" for good.
abbrev two_keys : MemoryStorage
two_keys = (set from_std "b" "2" none 1 (set from_std "a" "1" (some 10) 0 new).1).1

abbrev two_keys-Reach : Reach from_std two_keys
two_keys-Reach =
    Reach.next (Reach.next Reach.start (Reach.set_step "a" "1" (some 10) 0))
      (Reach.set_step "b" "2" none 1)

Reach-IsWellFormed_example : IsWellFormed two_keys
Reach-IsWellFormed_example = Reach-IsWellFormed from_std two_keys-Reach

live-cleanup_expired_example :
    (live "b" 60 (cleanup_expired 50 two_keys) ≡ live "b" 60 two_keys)
    × (members "b" 60 (cleanup_expired 50 two_keys) ≡ members "b" 60 two_keys)
live-cleanup_expired_example =
    live-cleanup_expired "b" 50 60 two_keys (Reach-IsWellFormed from_std two_keys-Reach)
      (omega arith)

get_among-loses_write_example :
    (live "a" 30 (set from_std "a" "new" (some 100) 20 two_keys).1 ≡ some "new")
    × (live "a" 30 (get_among (λ m. (set from_std "a" "new" (some 100) 20 m).1) "a" 20 two_keys).1
        ≡ none)
unfolding sa_token_rust.Memory.scalar sa_token_rust.Common.Assoc.lookup set
    sa_token_rust.Memory.write shard_index sa_token_rust.Common.Assoc.insert
get_among-loses_write_example =
    get_among-loses_write from_std "a" "new" (some 100) 20 30
      (record { value = "1"; expire_at = some 10 }) two_keys refl refl refl

list_push-members_example :
    ((list_push from_std "l" "x" true none 5 new).0
      ≡ ok (length (members "l" 5 (list_push from_std "l" "x" true none 5 new).1)))
    × (members "l" 5 (list_push from_std "l" "x" true none 5 new).1 ≡ (
        if true && contains (members "l" 5 new) "x"
        then members "l" 5 new
        else members "l" 5 new ++ "x" ∷ []))
list_push-members_example = list_push-members from_std "l" "x" true none 5 new

abbrev one_member : MemoryStorage
one_member = (list_push from_std "l" "x" true none 5 new).1

members-list_remove_example : members "l" 9 (list_remove "l" "x" 7 one_member).1 ≡ (
    if "l" == "l"
    then retain (λ y. not (y == "x")) (members "l" 9 one_member)
    else members "l" 9 one_member)
members-list_remove_example = members-list_remove "l" "l" "x" 7 9 one_member (omega arith)

contains-matching_example :
    contains (matching (λ key. true) 5 two_keys) "a" ≡ (is_some (live "a" 5 two_keys) && true)
contains-matching_example =
    contains-matching (λ key. true) 5 two_keys "a" (Reach-IsWellFormed from_std two_keys-Reach)

scan_all_keys_lem_example :
    (keys : List String) × (scan_all_keys storage 10 "*" 1 5 two_keys ≡ (ok (some keys), two_keys))
    × Ascending keys
    × ((a : String) → contains keys a ≡ (is_some (live a 5 two_keys) && true))
unfolding matching sa_token_rust.Common.Assoc.insert set sa_token_rust.Memory.write shard_index new
scan_all_keys_lem_example =
    scan_all_keys_lem from_std regex "*" (λ key. true) refl 1 5 two_keys 10
      (Reach-IsWellFormed from_std two_keys-Reach) (omega arith) (omega arith)

shard_index-lt_example : shard_index "sa:token:t" < shard_count
shard_index-lt_example = shard_index-lt "sa:token:t"
