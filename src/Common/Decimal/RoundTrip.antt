-- ===== src/Common/Decimal/RoundTrip.antt =====
-- What is printed is read back: the theorems about decimal numbers.
use Prim.Native.Char.{code}
use Prim.Native.String.{String, [], ◌∷◌}
use Prim.Native.Nat.{ℕ, zero, suc, ◌+◌, ◌-◌, ◌*◌, ◌/◌, ◌%◌, ◌^◌, ◌≤◌, ◌<◌}
use mathlib.Core.Bool.{Bool, true, false, ◌&&◌}
use mathlib.Core.Logic.{inl, inr}
use mathlib.Core.Option
use mathlib.Core.Option.{Option, none, some}
use mathlib.Core.Path.{◌≡◌, refl, ap, sym, ◌∙◌, subst}
use native.Mathlib.Omega.{arith}
use sa_token_rust.Common.Tests.{eqb, Bool-cases}
use sa_token_rust.Common.Int.{ℤ, pos, negsuc}
use sa_token_rust.Common.Decimal.{
  digit, digits, digits_from, print_ℕ, print, scan, scan_some, negate, parse,
}

-- All digits below `k`, by evaluation.
digits_below : ℕ → Bool
digits_below zero = true
digits_below (suc k) = eqb (code (digit k)) (b'0' + k) && digits_below k

digits_below_lem : (k d : ℕ) → digits_below k ≡ true → d < k → code (digit d) ≡ b'0' + d
unfolding digits_below
digits_below_lem zero d all h = absurd (omega arith)
digits_below_lem (suc k) d all h = elim (Bool-cases (eqb d k)) [
  | inl same ↦ subst (λ n. code (digit n) ≡ b'0' + n) {x = k} {y = d} (ground arith) (ground arith)
  | inr other ↦ digits_below_lem k d (ground arith) (ground arith)
]

digits_below_ten : digits_below 10 ≡ true
unfolding digits_below digit
digits_below_ten = refl

code-digit : (d : ℕ) → d < 10 → code (digit d) ≡ b'0' + d
code-digit d h = digits_below_lem 10 d digits_below_ten h

-- The last digit of `n`, read after the digits before it, gives `n`.
scan_last :
    (max n : ℕ) (out : String) → n ≤ max → scan max (digit (n % 10) ∷ out) (n / 10) ≡ scan max out n
unfolding scan
scan_last max n out h = ground (arith, code-digit (n % 10))

nought : {n : ℕ} → eqb n 0 ≡ true → n ≡ 0
nought h = ground arith

scan-digits_from :
    (fuel max n : ℕ) (out : String)
    → n ≤ fuel
    → n ≤ max
    → scan max (digits_from fuel n out) 0 ≡ scan max out n
unfolding digits_from
scan-digits_from zero max n out enough fits = ap (scan max out) (omega arith)
scan-digits_from (suc fuel) max n out enough fits = elim (Bool-cases (eqb n 0)) [
  | inl e ↦ rw (e, digits_from) (ap (scan max out) (sym (nought e)))
  | inr e ↦
      rw (e, digits_from)
        (scan-digits_from fuel max (n / 10) (digit (n % 10) ∷ out) (ground arith) (omega arith)
          ∙ scan_last max n out fits)
]

-- A printed number begins with a digit.
abbrev Starts : String → Type 0
Starts [] = ⊥
Starts (c ∷ s) = (b'0' ≤ code c) × (code c ≤ b'9')

Starts-digits_from : (fuel n : ℕ) (out : String) → Starts out → Starts (digits_from fuel n out)
unfolding digits_from
Starts-digits_from zero n out h = h
Starts-digits_from (suc fuel) n out h = elim (Bool-cases (eqb n 0)) [
  | inl e ↦ rw (e, digits_from) h
  | inr e ↦
      rw (e, digits_from)
        (Starts-digits_from fuel (n / 10) (digit (n % 10) ∷ out)
          (omega (arith, code-digit (n % 10))))
]

the_false : (n : ℕ) → eqb (suc n) 0 ≡ false
the_false n = ground arith

Starts-print_ℕ : (n : ℕ) → Starts (print_ℕ n)
unfolding print_ℕ digits digits_from
Starts-print_ℕ zero = omega arith
Starts-print_ℕ (suc n) = rw (the_false n) (
    rw (the_false n, digits, digits_from)
      (Starts-digits_from n (suc n / 10) (digit (suc n % 10) ∷ [])
        (omega (arith, code-digit (suc n % 10)))))

scan_zero : (max n : ℕ) → eqb n 0 ≡ true → scan max "0" 0 ≡ some n
unfolding scan
scan_zero max n h = ground arith

scan_done : (max n : ℕ) → scan max [] n ≡ some n
unfolding scan
scan_done max n = refl

scan-print_ℕ : (max n : ℕ) → n ≤ max → scan max (print_ℕ n) 0 ≡ some n
unfolding print_ℕ digits
scan-print_ℕ max n h = elim (Bool-cases (eqb n 0)) [
  | inl e ↦ rw e (scan_zero max n e)
  | inr e ↦ rw e (scan-digits_from n max n [] (omega arith) h ∙ scan_done max n)
]

scan_some-scan : (max : ℕ) (s : String) → Starts s → scan_some max s ≡ scan max s 0
unfolding scan_some
scan_some-scan max [] h = elim h [ ]
scan_some-scan max (c ∷ s) h = refl

-- A text that begins with a digit has no sign.
parse-scan : (w : ℕ) (s : String) → Starts s → parse w s ≡ Option.map pos (scan (2 ^ w - 1) s 0)
unfolding parse
parse-scan w [] h = elim h [ ]
parse-scan w (c ∷ s) (low, high) = ground arith

parse-minus : (w : ℕ) (s : String) → parse w ("-" ∷ s) ≡ Option.map negate (scan_some (2 ^ w) s)
unfolding parse
parse-minus w s = refl

-- The range of a signed type of `w + 1` bits.
abbrev pub Fits : ℕ → ℤ → Type 0
Fits w (pos n) = n < 2 ^ w
Fits w (negsuc n) = n < 2 ^ w

-- A number in the range of its type is read back from its decimal text.
pub parse-print : (w : ℕ) (z : ℤ) → Fits w z → parse w (print z) ≡ some z
unfolding print
parse-print w (pos n) h =
    parse-scan w (print_ℕ n) (Starts-print_ℕ n)
    ∙ ap (Option.map pos) (scan-print_ℕ (2 ^ w - 1) n (omega arith))
parse-print w (negsuc n) h =
    parse-minus w (print_ℕ (suc n))
    ∙ ap (Option.map negate) (
        scan_some-scan (2 ^ w) _ (Starts-print_ℕ (suc n))
        ∙ scan-print_ℕ (2 ^ w) (suc n) (omega arith))

scan_bound : (max n r : ℕ) (s : String) → n ≤ max → scan max s n ≡ some r → r ≤ max
unfolding scan
scan_bound max n r [] h e = ground arith
scan_bound max n r (c ∷ s) h e = ground (arith, scan_bound max (n * 10 + (code c - b'0')) r s)

scan_some_bound : (max r : ℕ) (s : String) → scan_some max s ≡ some r → r ≤ max
unfolding scan_some
scan_some_bound max r [] e = ground arith
scan_some_bound max r (c ∷ s) e = scan_bound max 0 r (c ∷ s) (omega arith) e

Fits-negate : (n : ℕ) → n ≤ 2 ^ 63 → Fits 63 (negate n)
Fits-negate zero h = omega arith
Fits-negate (suc n) h = omega arith

Fits-map :
    (f : ℕ → ℤ) (max : ℕ) (o : Option ℕ) {z : ℤ}
    → ((r : ℕ) → o ≡ some r → r ≤ max)
    → ((r : ℕ) → r ≤ max → Fits 63 (f r))
    → Option.map f o ≡ some z
    → Fits 63 z
Fits-map f max none bound fits h = cc
Fits-map f max (some r) {z} bound fits h =
    subst (Fits 63) {x = f r} {y = z} (ground arith) (fits r (bound r refl))

Fits-pos : (r : ℕ) → r ≤ 2 ^ 63 - 1 → Fits 63 (pos r)
Fits-pos r h = omega arith

-- What is read as an `i64` lies in the range of that type.
pub parse-Fits : (s : String) {z : ℤ} → parse 63 s ≡ some z → Fits 63 z
unfolding parse
parse-Fits [] h = cc
parse-Fits (c ∷ s) h = elim (Bool-cases (eqb (code c) b'-')) [
  | inl minus ↦
      Fits-map negate (2 ^ 63) (scan_some (2 ^ 63) s) (λ r. scan_some_bound (2 ^ 63) r s)
        Fits-negate (rw minus at h)
  | inr signless ↦ elim (Bool-cases (eqb (code c) b'+')) [
    | inl plus ↦
        Fits-map pos (2 ^ 63 - 1) (scan_some (2 ^ 63 - 1) s) (λ r. scan_some_bound (2 ^ 63 - 1) r s)
          Fits-pos (rw (signless, plus) at h)
    | inr digit ↦
        Fits-map pos (2 ^ 63 - 1) (scan (2 ^ 63 - 1) (c ∷ s) 0)
          (λ r. scan_bound (2 ^ 63 - 1) 0 r (c ∷ s) (omega arith)) Fits-pos
          (rw (signless, digit) at h)
  ]
]
