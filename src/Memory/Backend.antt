-- ===== src/Memory/Backend.antt =====
-- The in-memory storage is a backend: its operations, and the laws of the scalar ones.
use sa_token_rust.Common.{ℕ, ◌+◌, ◌≤◌, String, ◌≡◌, refl, Bool, Option, none, some, Result, ok}
use sa_token_rust.Storage.{SaStorage, StorageLaws}
use sa_token_rust.Memory
use sa_token_rust.Memory.{MemoryStorage}
use sa_token_rust.Memory.Batch
use sa_token_rust.Memory.Lists
use sa_token_rust.Memory.Scan
use sa_token_rust.Memory.Laws

module _ (from_std : ℕ → Option ℕ) (regex : String → Result String (String → Bool)) where
  abbrev pub memory : SaStorage
  memory = record {
    State = MemoryStorage;
    get = Memory.get;
    set = Memory.set from_std;
    delete = Memory.delete;
    exists = Memory.exists;
    expire = Memory.expire from_std;
    ttl = Memory.ttl;
    mget = Batch.mget;
    mset = Batch.mset from_std;
    mdel = Batch.mdel;
    incr = Memory.incr;
    decr = Memory.decr;
    clear = Memory.clear;
    set_if_absent = Memory.set_if_absent from_std;
    get_del = Memory.get_del;
    compare_and_swap = Memory.compare_and_swap from_std;
    compare_and_delete = Memory.compare_and_delete;
    list_push = Lists.list_push from_std;
    list_remove = Lists.list_remove;
    list_range = Lists.list_range;
    list_len = Lists.list_len;
    scan = Scan.scan regex;
  }

  -- `chrono` takes every duration up to a longest one as it is.
  module _ (longest : ℕ) (from_std-some : (d : ℕ) → d ≤ longest → from_std d ≡ some d) where
    pub deadline-some :
        (d now : ℕ) → d ≤ longest → Memory.deadline from_std (some d) now ≡ some (now + d)
    unfolding Memory.deadline
    deadline-some d now h = rw (from_std-some d h, Memory.deadline)

    pub deadline-none : (now : ℕ) → Memory.deadline from_std none now ≡ none
    unfolding Memory.deadline
    deadline-none now = refl

    pub get_del-live :
        (k : String) (now : ℕ) (m : MemoryStorage)
        → (Memory.get_del k now m).0 ≡ ok (Laws.live k now m)
    unfolding Memory.get_del Laws.live
    get_del-live k now m = refl

    -- An answer that is known is the answer that was given.
    pub answer {ℓ κ} :
        {E : Type ℓ} {A : Type κ} {r : Result E A} {a b : A} → r ≡ ok a → r ≡ ok b → b ≡ a
    answer p q = cc

    unfoldable pub memory_laws : StorageLaws memory
    memory_laws = record {
      live = Laws.live;
      deadline = Memory.deadline from_std;
      deadline-none = deadline-none;
      max_ttl = longest;
      deadline-some = deadline-some;
      get_lem = λ k now s o e. answer (Laws.get-live k now s) e;
      live-get = λ k j now t s h. Laws.live-get k j now t s h;
      live-set = λ k j v ttl now t s u h e. Laws.live-set from_std k j v ttl now t s;
      live-delete = λ k j now t s u h e. Laws.live-delete k j now t s;
      set_if_absent_lem =
          λ k v ttl now s b e. answer (Laws.set_if_absent_lem from_std k v ttl now s) e;
      live-set_if_absent = λ k j v ttl now t s b h e.
          rw (answer (Laws.set_if_absent_lem from_std k v ttl now s) e)
            (Laws.live-set_if_absent from_std k j v ttl now t s h);
      get_del_lem = λ k now s o e. answer (get_del-live k now s) e;
      live-get_del = λ k j now t s o h e. Laws.live-get_del k j now t s;
      compare_and_swap_lem =
          λ k x v ttl now s b e. answer (Laws.compare_and_swap_lem from_std k x v ttl now s) e;
      live-compare_and_swap = λ k j x v ttl now t s b h e.
          rw (answer (Laws.compare_and_swap_lem from_std k x v ttl now s) e)
            (Laws.live-compare_and_swap from_std k j x v ttl now t s);
    }
