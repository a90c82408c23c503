-- ===== src/Memory/ScanOrder.antt =====
-- The keys of a scan ascend: the sort and the dedup of sa-token-storage-memory/src/lib.rs.
use Prim.Native.Char.{Char, code}
use Prim.Native.String
use Prim.Native.String.{then as chain}
use Prim.Native.String.compare
use Prim.Native.Nat.{Ordering, compare as compare_ℕ}
use text.Mathlib.TextEquality.{Char-path}
use sa_token_rust.Common.{
  String, ◌≡◌, refl, Bool, true, false, List, [], ◌∷◌, ◌&&◌, ◌||◌, not, arith, eq_iff, ◌==◌, ltb,
  eqb, all, retain, Bool-cases, inl, inr,
}
use sa_token_rust.Memory.Scan.{before, place, sort, dedup_after, dedup}

before-nil : (t : String) → before String.[] t ≡ true
unfolding before
before-nil String.[] = refl
before-nil (String.◌∷◌ d t) = rw (compare.nil-cons d t, before) refl

before-cons_nil : (c : Char) (s : String) → before (String.◌∷◌ c s) String.[] ≡ false
unfolding before
before-cons_nil c s = rw (compare.cons-nil c s, before) refl

abbrev not_gt : Ordering → Bool
not_gt o = elim o [ Ordering.gt ↦ false | _ ↦ true ]

abbrev is_lt : Ordering → Bool
is_lt o = elim o [ Ordering.lt ↦ true | _ ↦ false ]

abbrev is_eq : Ordering → Bool
is_eq o = elim o [ Ordering.eq ↦ true | _ ↦ false ]

not_gt-chain : (o p : Ordering) → not_gt (chain o p) ≡ (is_lt o || (is_eq o && not_gt p))
not_gt-chain Ordering.lt p = refl
not_gt-chain Ordering.eq p = refl
not_gt-chain Ordering.gt p = refl

before-cons :
    (c d : Char) (s t : String)
    → before (String.◌∷◌ c s) (String.◌∷◌ d t)
      ≡ (ltb (code c) (code d) || (eqb (code c) (code d) && before s t))
unfolding before
before-cons c d s t =
    rw (compare.cons-cons c d s t, before)
      (not_gt-chain (compare_ℕ (code c) (code d)) (String.compare s t))

-- The order of the texts is total, transitive and antisymmetric.
before_total : (a b : String) → before a b ≡ false → before b a ≡ true
before_total String.[] b h = absurd (let e = before-nil b in ground arith)
before_total (String.◌∷◌ c s) String.[] h = before-nil (String.◌∷◌ c s)
before_total (String.◌∷◌ c s) (String.◌∷◌ d t) h =
    ground (arith, before-cons c d s t, before-cons d c t s, before_total s t)

before_trans : (a b c : String) → before a b ≡ true → before b c ≡ true → before a c ≡ true
before_trans String.[] b c h k = before-nil c
before_trans (String.◌∷◌ x s) String.[] c h k = absurd (let e = before-cons_nil x s in ground arith)
before_trans (String.◌∷◌ x s) (String.◌∷◌ y t) String.[] h k =
    absurd (let e = before-cons_nil y t in ground arith)
before_trans (String.◌∷◌ x s) (String.◌∷◌ y t) (String.◌∷◌ z u) h k =
    ground
      (arith, before-cons x y s t, before-cons y z t u, before-cons x z s u, before_trans s t u)

before_antisym : (a b : String) → before a b ≡ true → before b a ≡ true → a ≡ b
before_antisym String.[] String.[] h k = refl
before_antisym String.[] (String.◌∷◌ d t) h k = absurd (let e = before-cons_nil d t in ground arith)
before_antisym (String.◌∷◌ c s) String.[] h k = absurd (let e = before-cons_nil c s in ground arith)
before_antisym (String.◌∷◌ c s) (String.◌∷◌ d t) h k =
    let p = before-cons c d s t in
    let q = before-cons d c t s in
    let first = Char-path c d (ground arith) in
    let others = before_antisym s t (ground arith) (ground arith) in
    λ i. String.◌∷◌ (first i) (others i)

-- `y` comes after `x`, and is another text.
abbrev pub after : String → String → Bool
after x y = not (before y x)

after_trans : (a b c : String) → after a b ≡ true → after b c ≡ true → after a c ≡ true
after_trans a b c h k = ground (arith, before_total b a, before_total c b, before_trans c a b)

-- Every text comes after those before it in the list, so that none is there twice.
abbrev pub Ascending : List String → Type 0
Ascending [] = Unit {0}
Ascending (x ∷ xs) = (all (after x) xs ≡ true) × Ascending xs

abbrev Sorted : List String → Type 0
Sorted [] = Unit {0}
Sorted (x ∷ xs) = (all (before x) xs ≡ true) × Sorted xs

all-place :
    (p : String → Bool) (k : String) (xs : List String) → all p (place k xs) ≡ (p k && all p xs)
unfolding place
all-place p k [] = refl
all-place p k (x ∷ xs) = ground (arith, all-place p k xs)

all-before :
    (k x : String) (xs : List String)
    → before k x ≡ true
    → all (before x) xs ≡ true
    → all (before k) xs ≡ true
all-before k x [] h g = refl
all-before k x (y ∷ ys) h g = ground (arith, before_trans k x y, all-before k x ys)

all-after :
    (k x : String) (xs : List String)
    → after k x ≡ true
    → all (after x) xs ≡ true
    → all (after k) xs ≡ true
all-after k x [] h g = refl
all-after k x (y ∷ ys) h g = ground (arith, after_trans k x y, all-after k x ys)

place-Sorted : (k : String) (xs : List String) → Sorted xs → Sorted (place k xs)
unfolding place
place-Sorted k [] h = (refl, tt)
place-Sorted k (x ∷ xs) (first, rest) = elim (Bool-cases (before k x)) [
  | inl le ↦ rw (le, place) ((ground (arith, all-before k x xs), (first, rest)))
  | inr gt ↦
      rw (gt, place)
        ((ground (arith, all-place (before x) k xs, before_total k x), place-Sorted k xs rest))
]

sort-Sorted : (xs : List String) → Sorted (sort xs)
unfolding sort
sort-Sorted [] = tt
sort-Sorted (x ∷ xs) = place-Sorted x (sort xs) (sort-Sorted xs)

dedup_after-Ascending :
    (k : String) (xs : List String) → Sorted (k ∷ xs) → Ascending (k ∷ dedup_after k xs)
unfolding dedup_after
dedup_after-Ascending k [] h = (refl, tt)
dedup_after-Ascending k (x ∷ xs) (first, (second, rest)) = elim (Bool-cases (k == x)) [
  | inl same ↦ rw (same, dedup_after) (dedup_after-Ascending k xs (ground arith, rest))
  | inr other ↦
      let below = dedup_after-Ascending x xs (second, rest) in
      let next : after k x ≡ true = ground (arith, before_antisym k x, eq_iff k x) in
      rw (other, dedup_after)
        ((ground (arith, all-after k x (dedup_after x xs) next below.0), below))
]

dedup-Ascending : (xs : List String) → Sorted xs → Ascending (dedup xs)
unfolding dedup
dedup-Ascending [] h = tt
dedup-Ascending (x ∷ xs) h = dedup_after-Ascending x xs h

all-retain : (p q : String → Bool) (xs : List String) → all p xs ≡ true → all p (retain q xs) ≡ true
all-retain p q [] h = refl
all-retain p q (x ∷ xs) h = ground (arith, all-retain p q xs)

retain-Ascending : (q : String → Bool) (xs : List String) → Ascending xs → Ascending (retain q xs)
retain-Ascending q [] h = tt
retain-Ascending q (x ∷ xs) (first, rest) = elim (Bool-cases (q x)) [
  | inl e ↦ rw e ((all-retain (after x) q xs first, retain-Ascending q xs rest))
  | inr e ↦ rw e (retain-Ascending q xs rest)
]

pub selected-Ascending :
    (is_match : String → Bool) (xs : List String) → Ascending (retain is_match (dedup (sort xs)))
selected-Ascending is_match xs =
    retain-Ascending is_match (dedup (sort xs)) (dedup-Ascending (sort xs) (sort-Sorted xs))
