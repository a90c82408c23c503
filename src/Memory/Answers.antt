-- ===== src/Memory/Answers.antt =====
-- The operations of the storage that never fail: sa-token-storage-memory/src/lib.rs.
use sa_token_rust.Common.{ℕ, String, ap, refl, arith, Bool, Option, none, some, Result}
use sa_token_rust.Storage.Further.{is_ok, Answers, NeverFails}
use sa_token_rust.Memory.{
  ListItem, MemoryStorage, get, set, delete, exists, expire, ttl, incr, decr, count, clear,
  set_if_absent, get_del, compare_and_swap, compare_and_delete,
}
use sa_token_rust.Memory.Laws
use sa_token_rust.Memory.Lists.{
  list_at, list_push, list_remove, list_remove_in, list_range, list_len,
}
use sa_token_rust.Memory.Backend.{memory}

list_remove_in-Answers :
    (o : Option ListItem) (key member : String) (now : ℕ) (m : MemoryStorage)
    → Answers (list_remove_in o key member now m).0
unfolding list_remove_in
list_remove_in-Answers none key member now m = refl
list_remove_in-Answers (some entry) key member now m = ground arith

module _ (from_std : ℕ → Option ℕ) where
  expire-Answers :
      (k : String) (d now : ℕ) (m : MemoryStorage) → Answers (expire from_std k d now m).0
  unfolding expire
  expire-Answers k d now m = ground arith

  set_if_absent-Answers :
      (k v : String) (d : Option ℕ) (now : ℕ) (m : MemoryStorage)
      → Answers (set_if_absent from_std k v d now m).0
  unfolding set_if_absent
  set_if_absent-Answers k v d now m = ground arith

  compare_and_swap-Answers :
      (k : String) (expected : Option String) (v : String) (d : Option ℕ) (now : ℕ)
      (m : MemoryStorage)
      → Answers (compare_and_swap from_std k expected v d now m).0
  unfolding compare_and_swap
  compare_and_swap-Answers k expected v d now m = ground arith

  pub memory-NeverFails :
      (regex : String → Result String (String → Bool)) → NeverFails (memory from_std regex)
  unfolding get set delete exists ttl incr decr count clear get_del compare_and_delete list_push
      list_remove list_range list_len
  memory-NeverFails regex = record {
    get_answers = λ k now m. ap is_ok (Laws.get-live k now m);
    set_answers = λ k v d now m. refl;
    delete_answers = λ k now m. refl;
    exists_answers = λ k now m. refl;
    expire_answers = expire-Answers;
    ttl_answers = λ k now m. refl;
    incr_answers = λ k now m. refl;
    decr_answers = λ k now m. refl;
    clear_answers = λ now m. refl;
    set_if_absent_answers = set_if_absent-Answers;
    get_del_answers = λ k now m. refl;
    compare_and_swap_answers = compare_and_swap-Answers;
    compare_and_delete_answers = λ k expected now m. refl;
    list_push_answers = λ k member unique d now m. refl;
    list_remove_answers = λ k member now m. list_remove_in-Answers (list_at k m) k member now m;
    list_range_answers = λ k start limit now m. refl;
    list_len_answers = λ k now m. refl;
  }
