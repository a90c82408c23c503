-- ===== src/Common/Int.antt =====
-- Signed machine integers (`i64`, `i32`) as integers.
use Prim.Native.Nat.{ℕ, zero, suc, ◌+◌, ◌-◌, ◌^◌}
use mathlib.Core.Bool.{Bool, true, false}
use mathlib.Core.Option.{Option, none, some}
use sa_token_rust.Common.Tests.{leb, eqb, if◌then◌else◌}

-- `negsuc n` is -(n + 1).
pub data ℤ : Type 0 where
  pos : ℕ → ℤ
  negsuc : ℕ → ℤ

abbrev pub is_negative : ℤ → Bool
is_negative (pos n) = false
is_negative (negsuc n) = true

abbrev pub is_zero : ℤ → Bool
is_zero (pos n) = eqb n 0
is_zero (negsuc n) = false

abbrev pub is_positive : ℤ → Bool
is_positive (pos zero) = false
is_positive (pos (suc n)) = true
is_positive (negsuc n) = false

-- The value of an integer that is not negative, as a cast to `u64`.
abbrev pub to_ℕ : ℤ → ℕ
to_ℕ (pos n) = n
to_ℕ (negsuc n) = 0

-- a - b, as an integer.
abbrev pub sub_ℕ : ℕ → ℕ → ℤ
sub_ℕ a b = if leb b a then pos (a - b) else negsuc (b - a - 1)

-- `n + 1` and `n - 1` on an `i64`, which wrap around.
unfoldable pub succ_i64 : ℤ → ℤ
succ_i64 (pos n) = if eqb (n + 1) (2 ^ 63) then negsuc n else pos (n + 1)
succ_i64 (negsuc zero) = pos 0
succ_i64 (negsuc (suc n)) = negsuc n

unfoldable pub pred_i64 : ℤ → ℤ
pred_i64 (pos zero) = negsuc 0
pred_i64 (pos (suc n)) = pos n
pred_i64 (negsuc n) = if eqb (n + 1) (2 ^ 63) then pos n else negsuc (n + 1)

-- `unwrap_or(0)`.
abbrev pub or_zero : Option ℤ → ℤ
or_zero none = pos 0
or_zero (some z) = z
