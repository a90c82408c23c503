-- ===== src/Common/Decimal.antt =====
-- Decimal numbers: what `to_string` prints of an integer and what `str::parse` reads into an
-- integer type of Rust's standard library, at a given width.
pub mod RoundTrip
use Prim.Native.Char.{Char, code}
use Prim.Native.String.{String, [], ◌∷◌}
use Prim.Native.Nat.{ℕ, zero, suc, ◌+◌, ◌-◌, ◌*◌, ◌/◌, ◌%◌, ◌^◌, ◌<◌}
use mathlib.Core.Bool.{Bool, true, false, ◌||◌}
use mathlib.Core.Option
use mathlib.Core.Option.{Option, none, some}
use native.Mathlib.Omega.{arith}
use sa_token_rust.Common.Int.{ℤ, pos, negsuc}
use sa_token_rust.Common.Tests.{leb, ltb, eqb, if◌then◌else◌}

-- The character of a digit: the one at this place.
nth : String → ℕ → Char
nth [] n = "0"
nth (c ∷ s) zero = c
nth (c ∷ s) (suc n) = nth s n

digit : ℕ → Char
unfolding nth
digit = nth "0123456789"

-- The digits of `n`, no digit for zero, put before the text; a fuel of `n` is enough.
digits_from : ℕ → ℕ → String → String
digits_from zero n out = out
digits_from (suc fuel) n out = elim (eqb n 0) [
  | true ↦ out
  | false ↦ digits_from fuel (n / 10) (digit (n % 10) ∷ out)
]

digits : ℕ → String → String
digits n out = digits_from n n out

-- `to_string` of an unsigned integer.
unfoldable pub print_ℕ : ℕ → String
unfolding digits digits_from digit
print_ℕ n = if eqb n 0 then "0" else digits n []

-- `to_string` of a signed one.
unfoldable pub print : ℤ → String
unfolding print_ℕ
print (pos n) = print_ℕ n
print (negsuc n) = "-" ∷ print_ℕ (suc n)

-- Digits read behind `n`, refused where the value passes `max`.
unfoldable pub scan : ℕ → String → ℕ → Option ℕ
scan max [] n = some n
scan max (c ∷ s) n =
    let d = code c - b'0' in
    if ltb (code c) b'0' || ltb b'9' (code c)
    then none
    else if ltb max (n * 10 + d)
    then none
    else scan max s (n * 10 + d)

unfoldable pub scan_some : ℕ → String → Option ℕ
unfolding scan
scan_some max [] = none
scan_some max (c ∷ s) = scan max (c ∷ s) 0

abbrev pub negate : ℕ → ℤ
negate zero = pos zero
negate (suc n) = negsuc n

-- `parse` of a signed type of `w + 1` bits: a sign is optional, and a digit is not.
unfoldable pub parse : ℕ → String → Option ℤ
unfolding scan_some
parse w [] = none
parse w (c ∷ s) =
    if eqb (code c) b'-'
    then Option.map negate (scan_some (2 ^ w) s)
    else if eqb (code c) b'+'
    then Option.map pos (scan_some (2 ^ w - 1) s)
    else Option.map pos (scan (2 ^ w - 1) (c ∷ s) 0)

-- `parse::<i32>()` and `parse::<i64>()`.
abbrev pub parse_i32 : String → Option ℤ
parse_i32 = parse 31

abbrev pub parse_i64 : String → Option ℤ
parse_i64 = parse 63
