-- ===== src/Memory/ScanLaws.antt =====
-- What `scan` finds, and the page loop over it.
use Prim.Native.Nat.{min}
use mathlib.Core.List.{append_assoc}
use sa_token_rust.Common.{
  ℕ, zero, suc, ◌+◌, ◌-◌, ◌≤◌, ◌<◌, String, ◌≡◌, refl, sym, ap, ◌∙◌, Bool, true, false, Option,
  some, List, [], ◌∷◌, ◌++◌, ◌&&◌, ◌||◌, arith, eq_iff, ◌==◌, if◌then◌else◌, eqb, ltb, leb, is_some,
  contains, retain, length, take, drop, Result, ok, Bool-cases, inl, inr,
}
use sa_token_rust.Common.Assoc.{Assoc, lookup}
use sa_token_rust.Storage.Defaults.{scan_from, scan_from-page, scan_all_keys}
use sa_token_rust.Memory.{StorageItem, MemoryStorage, scalar, fresh}
use sa_token_rust.Memory.Shard.{shard_index, shard_count, shard_index-lt}
use sa_token_rust.Memory.Scan.{
  place, sort, dedup_after, dedup, live_keys, collect, matching, page, glob_to_regex, scan,
}
use sa_token_rust.Memory.Laws.{live}
use sa_token_rust.Memory.ScanOrder.{Ascending, selected-Ascending}
use sa_token_rust.Memory.Invariant.{HasDistinctKeys, IsWellFormed}
use sa_token_rust.Memory.Backend.{memory}

contains-append :
    (xs ys : List String) (a : String) → contains (xs ++ ys) a ≡ (contains xs a || contains ys a)
contains-append [] ys a = refl
contains-append (x ∷ xs) ys a = ground (arith, contains-append xs ys a)

contains-retain :
    (p : String → Bool) (xs : List String) (a : String)
    → contains (retain p xs) a ≡ (contains xs a && p a)
contains-retain p [] a = refl
contains-retain p (x ∷ xs) a = ground (arith, contains-retain p xs a, eq_iff x a)

contains-place :
    (k : String) (xs : List String) (a : String)
    → contains (place k xs) a ≡ ((k == a) || contains xs a)
unfolding place
contains-place k [] a = refl
contains-place k (x ∷ xs) a = ground (arith, contains-place k xs a)

contains-sort : (xs : List String) (a : String) → contains (sort xs) a ≡ contains xs a
unfolding sort
contains-sort [] a = refl
contains-sort (x ∷ xs) a = ground (arith, contains-place x (sort xs) a, contains-sort xs a)

contains-dedup_after :
    (k : String) (xs : List String) (a : String)
    → ((k == a) || contains (dedup_after k xs) a) ≡ ((k == a) || contains xs a)
unfolding dedup_after
contains-dedup_after k [] a = refl
contains-dedup_after k (x ∷ xs) a =
    ground (arith, contains-dedup_after k xs a, contains-dedup_after x xs a, eq_iff k x)

contains-dedup : (xs : List String) (a : String) → contains (dedup xs) a ≡ contains xs a
unfolding dedup
contains-dedup [] a = refl
contains-dedup (x ∷ xs) a = contains-dedup_after x xs a

-- In a map with distinct keys the live keys are those whose value is fresh.
contains-live_keys :
    (now : ℕ) (l : Assoc StorageItem) (a : String)
    → HasDistinctKeys l
    → contains (live_keys now l) a ≡ is_some (fresh (lookup a l) now)
unfolding live_keys lookup fresh
contains-live_keys now [] a h = refl
contains-live_keys now ((k, v) ∷ l) a h =
    ground (arith, contains-live_keys now l a h.1, contains-live_keys now l k h.1, eq_iff k a)

collected : ℕ → String → ℕ → MemoryStorage → Bool
collected n a now m = ltb (shard_index a) n && is_some (live a now m)

contains-collect :
    (n now : ℕ) (m : MemoryStorage) (a : String)
    → IsWellFormed m
    → contains (collect n now m) a ≡ collected n a now m
unfolding collect collected live scalar fresh
contains-collect zero now m a w = ground arith
contains-collect (suc i) now m a w = ground (
  arith,
  contains-append (collect i now m) (live_keys now (m i).scalars) a,
  contains-collect i now m a w,
  contains-live_keys now (m i).scalars a (w.distinct i),
  w.placed i a,
)

contains-selected :
    (is_match : String → Bool) (xs : List String) (a : String)
    → contains (retain is_match (dedup (sort xs))) a ≡ (contains xs a && is_match a)
contains-selected is_match xs a = rw (contains-retain, contains-dedup, contains-sort)

in_some_shard :
    (a : String) (now : ℕ) (m : MemoryStorage)
    → collected shard_count a now m ≡ is_some (live a now m)
unfolding collected
in_some_shard a now m = ground (arith, shard_index-lt a)

-- In a well-formed storage the keys that a scan selects are exactly those that a reader finds and
-- that the pattern accepts.
pub contains-matching :
    (is_match : String → Bool) (now : ℕ) (m : MemoryStorage) (a : String)
    → IsWellFormed m
    → contains (matching is_match now m) a ≡ (is_some (live a now m) && is_match a)
contains-matching is_match now m a w =
    let all_keys : contains (collect shard_count now m) a ≡ is_some (live a now m) =
      contains-collect shard_count now m a w ∙ in_some_shard a now m in
    unfold matching in rw (contains-selected is_match, all_keys)

take-append-drop_rest : {A : Type 0} (n : ℕ) (xs : List A) → take n xs ++ drop n xs ≡ xs
take-append-drop_rest zero xs = refl
take-append-drop_rest (suc n) [] = refl
take-append-drop_rest (suc n) (x ∷ xs) = rw (take-append-drop_rest n xs)

drop-all : {A : Type 0} (n : ℕ) (xs : List A) → length xs ≤ n → drop n xs ≡ []
drop-all zero [] h = refl
drop-all zero (x ∷ xs) h = absurd (omega arith)
drop-all (suc n) [] h = refl
drop-all (suc n) (x ∷ xs) h = drop-all n xs (omega arith)

drop-drop : {A : Type 0} (a b : ℕ) (xs : List A) → drop b (drop a xs) ≡ drop (a + b) xs
drop-drop zero b xs = ap (λ n. drop n xs) (omega arith)
drop-drop (suc a) b [] = drop-all b [] (omega arith) ∙ sym (drop-all (suc a + b) [] (omega arith))
drop-drop (suc a) b (x ∷ xs) =
    drop-drop a b xs ∙ ap (λ n. drop n (x ∷ xs)) {x = suc (a + b)} (omega arith)

take-all : {A : Type 0} (n : ℕ) (xs : List A) → length xs ≤ n → take n xs ≡ xs
take-all zero [] h = refl
take-all zero (x ∷ xs) h = absurd (omega arith)
take-all (suc n) [] h = refl
take-all (suc n) (x ∷ xs) h = rw (take-all n xs (omega arith))

length-drop : {A : Type 0} (n : ℕ) (xs : List A) → length (drop n xs) ≡ length xs - n
length-drop zero xs = omega arith
length-drop (suc n) [] = omega arith
length-drop (suc n) (x ∷ xs) = omega (arith, length-drop n xs)

-- The last page holds what is left.
page_last :
    (keys : List String) (c size : ℕ)
    → 0 < size
    → eqb (page keys c size).next_cursor 0 ≡ true
    → (page keys c size).keys ≡ drop c keys
unfolding page
page_last keys c size pos e = elim (Bool-cases (leb (length keys) c)) [
  | inl past ↦ rw past (sym (drop-all c keys (ground arith)))
  | inr inside ↦ rw inside (
      take-all (min (c + size) (length keys) - c) (drop c keys)
        (let len = length-drop c keys in ground (arith, len)))
]

-- Any other page is followed by the keys from the next cursor on.
page_more :
    (keys : List String) (c size : ℕ)
    → eqb (page keys c size).next_cursor 0 ≡ false
    → ((page keys c size).keys ++ drop (page keys c size).next_cursor keys ≡ drop c keys)
      × (c ≤ (page keys c size).next_cursor)
      × ((page keys c size).next_cursor < length keys)
      × ((page keys c size).next_cursor ≡ c + size)
unfolding page
page_more keys c size e = elim (Bool-cases (leb (length keys) c)) [
  | inl past ↦ absurd (ground arith)
  | inr inside ↦ elim (Bool-cases (leb (length keys) (min (c + size) (length keys)))) [
    | inl done ↦ absurd (ground arith)
    | inr more ↦
        let next : min (c + size) (length keys) ≡ c + size = ground arith in
        rw (inside, more, next)
          (
            rw (← drop-drop c size keys) (
                ap (λ n. take n (drop c keys) ++ drop size (drop c keys)) (omega arith)
                ∙ take-append-drop_rest size (drop c keys)),
            omega arith,
            ground arith,
            refl,
          )
  ]
]

module _ (from_std : ℕ → Option ℕ) (regex : String → Result String (String → Bool)) where
  module _ (pattern : String) (is_match : String → Bool)
      (accepts : regex (glob_to_regex pattern) ≡ ok is_match) (size now : ℕ)
      (m : MemoryStorage) where
    scan-page :
        (c : ℕ) → scan regex pattern c size now m ≡ (ok (page (matching is_match now m) c size), m)
    unfolding scan
    scan-page c = rw (accepts, scan)

    round :
        (fuel c : ℕ) (found : List String)
        → scan_from (memory from_std regex) (suc fuel) pattern size c found now m ≡ (
            let p = page (matching is_match now m) c size in
            if eqb p.next_cursor 0
            then (ok (some (found ++ p.keys)), m)
            else scan_from
                (memory from_std regex)
                fuel
                pattern
                size
                p.next_cursor
                (found ++ p.keys)
                now
                m)
    round fuel c found =
        scan_from-page (memory from_std regex) fuel pattern size c found now m m
          (page (matching is_match now m) c size) (scan-page c)

    scan_from-drop :
        (fuel c : ℕ) (found : List String)
        → 0 < size
        → length (matching is_match now m) - c < fuel
        → scan_from (memory from_std regex) fuel pattern size c found now m
          ≡ (ok (some (found ++ drop c (matching is_match now m))), m)
    unfolding scan_from
    scan_from-drop zero c found pos h = absurd (omega arith)
    scan_from-drop (suc fuel) c found pos h =
        let keys : List String = matching is_match now m in
        elim (Bool-cases (eqb (page keys c size).next_cursor 0)) [
          | inl done ↦ round fuel c found ∙ rw (done, page_last keys c size pos done)
          | inr more ↦
              let (rest, ahead, inside, next) = page_more keys c size more in
              round fuel c found
              ∙ rw more (
                  scan_from-drop fuel (page keys c size).next_cursor
                    (found ++ (page keys c size).keys) pos (omega arith)
                  ∙ ap (λ (l : List String). (ok (some l), m))
                      (append_assoc found _ _ ∙ ap (λ l. found ++ l) rest))
        ]

    scan_all_keys-eq-matching :
        (fuel : ℕ)
        → 0 < size
        → length (matching is_match now m) < fuel
        → scan_all_keys (memory from_std regex) fuel pattern size now m
          ≡ (ok (some (matching is_match now m)), m)
    unfolding scan_all_keys
    scan_all_keys-eq-matching fuel pos h = scan_from-drop fuel 0 [] pos (omega arith)

    -- In a well-formed storage, with pages of at least one key and fuel for more pages than there are
    -- keys, the page loop returns, leaves the storage as it is, and returns a list that ascends in
    -- the order of the texts, so that no key is in it twice, and that has exactly the keys that a
    -- reader finds and that the pattern accepts.
    pub scan_all_keys_lem :
        (fuel : ℕ)
        → IsWellFormed m
        → 0 < size
        → length (matching is_match now m) < fuel
        → (keys : List String) × (scan_all_keys (memory from_std regex) fuel pattern size now m
            ≡ (ok (some keys), m))
          × Ascending keys
          × ((a : String) → contains keys a ≡ (is_some (live a now m) && is_match a))
    unfolding matching
    scan_all_keys_lem fuel w pos h = (
      matching is_match now m,
      scan_all_keys-eq-matching fuel pos h,
      selected-Ascending is_match (collect shard_count now m),
      λ a. contains-matching is_match now m a w,
    )
