-- ===== src/HttpBasic/ConstantTime.antt =====
-- The constant-time comparison decides equality: the laws of `ct_eq`.
use Prim.Native.Nat.{bit_or, bit_xor}
use mathlib.Core.Path.{subst}
use sa_token_rust.Common.{
  ℕ, zero, suc, ◌≡◌, ◌<◌, refl, sym, ◌↔◌, inl, inr, Bool, true, false, ◌&&◌, List, [], ◌∷◌, arith,
  length, eqb, ltb, Bool-cases, not,
}
use sa_token_rust.HttpBasic.{diff, ct_eq}

all_below : ℕ → (ℕ → Bool) → Bool
all_below zero p = true
all_below (suc n) p = p n && all_below n p

all_below_lem : (n : ℕ) (p : ℕ → Bool) (x : ℕ) → all_below n p ≡ true → x < n → p x ≡ true
unfolding all_below
all_below_lem zero p x h lt = absurd (omega arith)
all_below_lem (suc n) p x h lt = elim (Bool-cases (eqb x n)) [
  | inl same ↦ subst (λ k. p k ≡ true) {x = n} {y = x} (ground arith) (ground arith)
  | inr other ↦ all_below_lem n p x (ground arith) (ground arith)
]

same_bool : Bool → Bool → Bool
same_bool true b = b
same_bool false b = not b

-- What one step does to the accumulator, checked at every pair of bytes.
xor_right : ℕ → ℕ → Bool
unfolding same_bool
xor_right x y = ltb (bit_xor x y) 256 && same_bool (eqb (bit_xor x y) 0) (eqb x y)

or_right : ℕ → ℕ → Bool
unfolding same_bool
or_right d e = ltb (bit_or d e) 256 && same_bool (eqb (bit_or d e) 0) (eqb d 0 && eqb e 0)

xor_table : all_below 256 (λ x. all_below 256 (xor_right x)) ≡ true
unfolding all_below xor_right
xor_table = refl

or_table : all_below 256 (λ x. all_below 256 (or_right x)) ≡ true
unfolding all_below or_right
or_table = refl

xor_byte : (x y : ℕ) → x < 256 → y < 256 → xor_right x y ≡ true
xor_byte x y hx hy =
    all_below_lem 256 (xor_right x) y
      (all_below_lem 256 (λ z. all_below 256 (xor_right z)) x xor_table hx) hy

or_byte : (d e : ℕ) → d < 256 → e < 256 → or_right d e ≡ true
or_byte d e hd he =
    all_below_lem 256 (or_right d) e
      (all_below_lem 256 (λ z. all_below 256 (or_right z)) d or_table hd) he

same_bool_eq : (a b : Bool) → same_bool a b ≡ true → a ≡ b
unfolding same_bool
same_bool_eq true b h = sym h
same_bool_eq false true h = cc
same_bool_eq false false h = refl

and_left : (a b : Bool) → (a && b) ≡ true → a ≡ true
and_left a b h = ground arith

and_right : (a b : Bool) → (a && b) ≡ true → b ≡ true
and_right a b h = ground arith

ltb-true : (a b : ℕ) → ltb a b ≡ true → a < b
ltb-true a b h = ground arith

xor_lt : (x y : ℕ) → x < 256 → y < 256 → bit_xor x y < 256
unfolding xor_right
xor_lt x y hx hy = ltb-true _ _ (and_left _ _ (xor_byte x y hx hy))

xor_zero : (x y : ℕ) → x < 256 → y < 256 → eqb (bit_xor x y) 0 ≡ eqb x y
unfolding xor_right
xor_zero x y hx hy = same_bool_eq _ _ (and_right _ _ (xor_byte x y hx hy))

or_lt : (d e : ℕ) → d < 256 → e < 256 → bit_or d e < 256
unfolding or_right
or_lt d e hd he = ltb-true _ _ (and_left _ _ (or_byte d e hd he))

or_zero : (d e : ℕ) → d < 256 → e < 256 → eqb (bit_or d e) 0 ≡ (eqb d 0 && eqb e 0)
unfolding or_right
or_zero d e hd he = same_bool_eq _ _ (and_right _ _ (or_byte d e hd he))

abbrev pub AreBytes : List ℕ → Type 0
AreBytes [] = Unit {0}
AreBytes (x ∷ a) = (x < 256) × AreBytes a

-- The equality of two lists of numbers, from left to right.
abbrev list_eqb : List ℕ → List ℕ → Bool
list_eqb [] [] = true
list_eqb (x ∷ a) (y ∷ b) = eqb x y && list_eqb a b
list_eqb a b = false

list_eqb_iff : (a b : List ℕ) → (list_eqb a b ≡ true) ↔ (a ≡ b)
list_eqb_iff [] [] = ground arith
list_eqb_iff [] (y ∷ b) = ground arith
list_eqb_iff (x ∷ a) [] = ground arith
list_eqb_iff (x ∷ a) (y ∷ b) = ground (arith, list_eqb_iff a b)

-- The loop keeps every difference.
diff_lem :
    (d : ℕ) (a b : List ℕ)
    → d < 256
    → AreBytes a
    → AreBytes b
    → length a ≡ length b
    → eqb (diff d a b) 0 ≡ (eqb d 0 && list_eqb a b)
unfolding diff
diff_lem d [] [] hd ha hb e = ground arith
diff_lem d [] (y ∷ b) hd ha hb e = absurd (omega arith)
diff_lem d (x ∷ a) [] hd ha hb e = absurd (omega arith)
diff_lem d (x ∷ a) (y ∷ b) hd (hx, ha) (hy, hb) e =
    let small = xor_lt x y hx hy in
    rw (diff_lem (bit_or d (bit_xor x y)) a b (or_lt d _ hd small) ha hb (omega arith))
      (rw (or_zero d _ hd small) (rw (xor_zero x y hx hy) (ground arith)))

list_eqb-length : (a b : List ℕ) → list_eqb a b ≡ true → length a ≡ length b
list_eqb-length [] [] h = refl
list_eqb-length [] (y ∷ b) h = cc
list_eqb-length (x ∷ a) [] h = cc
list_eqb-length (x ∷ a) (y ∷ b) h = ground (arith, list_eqb-length a b)

ct_eq-list_eqb : (a b : List ℕ) → AreBytes a → AreBytes b → ct_eq a b ≡ list_eqb a b
unfolding ct_eq
ct_eq-list_eqb a b ha hb = elim (Bool-cases (eqb (length a) (length b))) [
  | inl e ↦ rw e (diff_lem 0 a b (omega arith) ha hb (ground arith))
  | inr e ↦ rw e (ground (arith, list_eqb-length a b))
]

-- On two lists of bytes the constant-time comparison answers true exactly when they are equal,
-- whatever their lengths and contents.
pub ct_eq_iff : (a b : List ℕ) → AreBytes a → AreBytes b → (ct_eq a b ≡ true) ↔ (a ≡ b)
ct_eq_iff a b ha hb = rw (ct_eq-list_eqb a b ha hb) (list_eqb_iff a b)
