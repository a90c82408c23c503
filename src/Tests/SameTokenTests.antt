-- ===== src/Tests/SameTokenTests.antt =====
-- Witnesses on the Same-Token.
use sa_token_rust.Common.{ℕ, String, ◌≡◌, refl, none, some, ok}
use sa_token_rust.Common.Int.{pos}
use sa_token_rust.Memory.{MemoryStorage, new, set}
use sa_token_rust.Memory.Laws.{live}
use sa_token_rust.Keys.{same_token}
use sa_token_rust.SameToken.{refresh_token}
use sa_token_rust.SameToken.RotationLaws.{refresh_token-stored}
use sa_token_rust.Tests.{from_std, storage, storage_laws, dao, holding}

-- Another task writes its own token in between.
abbrev other_wins : MemoryStorage → MemoryStorage
other_wins m = (set from_std (same_token dao.keys) "theirs" none 5 m).1

abbrev before : MemoryStorage
before = holding (same_token dao.keys) "old"

refresh_token-stored_example :
    live
      (same_token dao.keys)
      5
      (refresh_token storage dao (pos 60) (ok "ours") other_wins 5 before).1
    ≡ some "theirs"
unfolding refresh_token set new same_token sa_token_rust.Keys.same_token_past
    sa_token_rust.Memory.Backend.memory_laws sa_token_rust.Dao.get_string
    sa_token_rust.Dao.set_string sa_token_rust.Dao.cas sa_token_rust.Memory.get
    sa_token_rust.Memory.compare_and_swap sa_token_rust.Common.Assoc.lookup
    sa_token_rust.Common.Assoc.insert sa_token_rust.Memory.write
    sa_token_rust.Memory.Shard.shard_index sa_token_rust.SameToken.ttl sa_token_rust.Memory.deadline
refresh_token-stored_example =
    refresh_token-stored storage storage_laws dao (pos 60) (ok "ours") other_wins 5 before "theirs"
      refl refl
