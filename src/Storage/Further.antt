-- ===== src/Storage/Further.antt =====
-- What the documentation of sa-token-adapter/src/storage.rs promises of the operations that
-- `StorageLaws` does not name: the conditional deletion, the questions about a key, the change of a
-- deadline, and the lists.
use sa_token_rust.Common.{
  ℕ, ◌≤◌, ◌+◌, ◌-◌, String, ◌≡◌, Bool, true, false, Option, none, some, List, [], ◌∷◌, ◌++◌, ◌&&◌,
  not, ok, err, ◌==◌, if◌then◌else◌, option_eq, contains, retain, length, take, drop,
}
use sa_token_rust.Common.Int.{ℤ, pos, or_zero, succ_i64, pred_i64}
use sa_token_rust.Common.Decimal.{parse, print}
use sa_token_rust.Storage.{StorageResult, SaStorage, StorageLaws, within}

-- From a position on, and no more than the limit.
abbrev pub slice : ℕ → Option ℕ → List String → List String
slice start none xs = drop start xs
slice start (some limit) xs = take limit (drop start xs)

abbrev pub number : Option String → ℤ
number none = pos 0
number (some raw) = or_zero (parse 63 raw)

-- `members k t s` is what a reader of the list finds at the instant `t`.
pub record FurtherLaws {st : SaStorage} (laws : StorageLaws st) : Type 0 where
  pub compare_and_delete_lem :
      (k expected : String) (now : ℕ) (s : st.State) (b : Bool)
      → (st.compare_and_delete k expected now s).0 ≡ ok b
      → b ≡ option_eq (laws.live k now s) (some expected)
  pub live-compare_and_delete :
      (k j expected : String) (now t : ℕ) (s : st.State) (b : Bool)
      → now ≤ t
      → (st.compare_and_delete k expected now s).0 ≡ ok b
      → laws.live j t (st.compare_and_delete k expected now s).1
        ≡ (if b then (if k == j then none else laws.live j t s) else laws.live j t s)
  -- A key with a value exists, and a deleted one does not.
  pub exists-live :
      (k v : String) (now : ℕ) (s : st.State) (b : Bool)
      → laws.live k now s ≡ some v
      → (st.exists k now s).0 ≡ ok b
      → b ≡ true
  pub exists-delete :
      (k : String) (now t : ℕ) (s : st.State) (u : Unit {0}) (b : Bool)
      → (st.delete k now s).0 ≡ ok u
      → (st.exists k t (st.delete k now s).1).0 ≡ ok b
      → b ≡ false
  -- A value that is there gets a new deadline.
  pub live-expire :
      (k j v : String) (d now t : ℕ) (s : st.State) (u : Unit {0})
      → d ≤ laws.max_ttl
      → now ≤ t
      → laws.live k now s ≡ some v
      → (st.expire k d now s).0 ≡ ok u
      → laws.live j t (st.expire k d now s).1
        ≡ (if k == j then (if within (some (now + d)) t then some v else none) else laws.live j t s)
  -- What is left of the TTL of a value.
  pub ttl-set :
      (k v : String) (d now t : ℕ) (s : st.State) (u : Unit {0}) (r : Option ℕ)
      → d ≤ laws.max_ttl
      → now ≤ t
      → t ≤ now + d
      → (st.set k v (some d) now s).0 ≡ ok u
      → (st.ttl k t (st.set k v (some d) now s).1).0 ≡ ok r
      → r ≡ some (now + d - t)
  -- The counters: the number behind the text, an `i64`, one up or down, and zero where there is none.
  pub incr_lem :
      (k j : String) (now t : ℕ) (s : st.State) (z : ℤ)
      → now ≤ t
      → (st.incr k now s).0 ≡ ok z
      → (z ≡ succ_i64 (number (laws.live k now s)))
        × (laws.live j t (st.incr k now s).1 ≡ (if k == j then some (print z) else laws.live j t s))
  pub decr_lem :
      (k j : String) (now t : ℕ) (s : st.State) (z : ℤ)
      → now ≤ t
      → (st.decr k now s).0 ≡ ok z
      → (z ≡ pred_i64 (number (laws.live k now s)))
        × (laws.live j t (st.decr k now s).1 ≡ (if k == j then some (print z) else laws.live j t s))
  pub live-clear :
      (j : String) (now t : ℕ) (s : st.State) (u : Unit {0})
      → (st.clear now s).0 ≡ ok u
      → laws.live j t (st.clear now s).1 ≡ none
  pub members : String → ℕ → st.State → List String
  pub list_range_lem :
      (k : String) (start : ℕ) (limit : Option ℕ) (now : ℕ) (s : st.State) (xs : List String)
      → (st.list_range k start limit now s).0 ≡ ok xs
      → xs ≡ slice start limit (members k now s)
  pub list_len_lem :
      (k : String) (now : ℕ) (s : st.State) (n : ℕ)
      → (st.list_len k now s).0 ≡ ok n
      → n ≡ length (members k now s)
  -- A push answers the new length, and adds the member unless it is to be there once and is there.
  pub list_push_lem :
      (k member : String) (unique : Bool) (ttl : Option ℕ) (now : ℕ) (s : st.State) (n : ℕ)
      → (st.list_push k member unique ttl now s).0 ≡ ok n
      → (n ≡ length (members k now (st.list_push k member unique ttl now s).1))
        × (members k now (st.list_push k member unique ttl now s).1 ≡ (
            if unique && contains (members k now s) member
            then members k now s
            else members k now s ++ member ∷ []))
  -- With a TTL the list is there until its deadline, and the other lists are as they were.
  pub members-list_push :
      (k j member : String) (unique : Bool) (d now t : ℕ) (s : st.State) (n : ℕ)
      → d ≤ laws.max_ttl
      → now ≤ t
      → (st.list_push k member unique (some d) now s).0 ≡ ok n
      → members j t (st.list_push k member unique (some d) now s).1 ≡ (
          if k == j
          then (if within (some (now + d)) t
              then members k now (st.list_push k member unique (some d) now s).1
              else [])
          else members j t s)
  pub list_remove_lem :
      (k member : String) (now : ℕ) (s : st.State) (b : Bool)
      → (st.list_remove k member now s).0 ≡ ok b
      → b ≡ contains (members k now s) member
  pub members-list_remove :
      (k j member : String) (now t : ℕ) (s : st.State) (b : Bool)
      → now ≤ t
      → (st.list_remove k member now s).0 ≡ ok b
      → members j t (st.list_remove k member now s).1
        ≡ (if k == j then retain (λ x. not (x == member)) (members j t s) else members j t s)
  pub members-delete :
      (k j : String) (now t : ℕ) (s : st.State) (u : Unit {0})
      → (st.delete k now s).0 ≡ ok u
      → members j t (st.delete k now s).1 ≡ (if k == j then [] else members j t s)

-- An operation answers whatever it is asked and whenever.
abbrev pub is_ok {ℓ} : {A : Type ℓ} → StorageResult A → Bool
is_ok (ok a) = true
is_ok (err e) = false

abbrev pub Answers {ℓ} : {A : Type ℓ} → StorageResult A → Type 0
Answers r = is_ok r ≡ true

-- The single operations on a value, a deadline or a list never fail.
pub record NeverFails (st : SaStorage) : Type 0 where
  pub get_answers : (k : String) (now : ℕ) (s : st.State) → Answers (st.get k now s).0
  pub set_answers :
      (k v : String) (ttl : Option ℕ) (now : ℕ) (s : st.State) → Answers (st.set k v ttl now s).0
  pub delete_answers : (k : String) (now : ℕ) (s : st.State) → Answers (st.delete k now s).0
  pub exists_answers : (k : String) (now : ℕ) (s : st.State) → Answers (st.exists k now s).0
  pub expire_answers : (k : String) (d now : ℕ) (s : st.State) → Answers (st.expire k d now s).0
  pub ttl_answers : (k : String) (now : ℕ) (s : st.State) → Answers (st.ttl k now s).0
  pub incr_answers : (k : String) (now : ℕ) (s : st.State) → Answers (st.incr k now s).0
  pub decr_answers : (k : String) (now : ℕ) (s : st.State) → Answers (st.decr k now s).0
  pub clear_answers : (now : ℕ) (s : st.State) → Answers (st.clear now s).0
  pub set_if_absent_answers :
      (k v : String) (ttl : Option ℕ) (now : ℕ) (s : st.State)
      → Answers (st.set_if_absent k v ttl now s).0
  pub get_del_answers : (k : String) (now : ℕ) (s : st.State) → Answers (st.get_del k now s).0
  pub compare_and_swap_answers :
      (k : String) (expected : Option String) (v : String) (ttl : Option ℕ) (now : ℕ) (s : st.State)
      → Answers (st.compare_and_swap k expected v ttl now s).0
  pub compare_and_delete_answers :
      (k expected : String) (now : ℕ) (s : st.State)
      → Answers (st.compare_and_delete k expected now s).0
  pub list_push_answers :
      (k member : String) (unique : Bool) (ttl : Option ℕ) (now : ℕ) (s : st.State)
      → Answers (st.list_push k member unique ttl now s).0
  pub list_remove_answers :
      (k member : String) (now : ℕ) (s : st.State) → Answers (st.list_remove k member now s).0
  pub list_range_answers :
      (k : String) (start : ℕ) (limit : Option ℕ) (now : ℕ) (s : st.State)
      → Answers (st.list_range k start limit now s).0
  pub list_len_answers : (k : String) (now : ℕ) (s : st.State) → Answers (st.list_len k now s).0
