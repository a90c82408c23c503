-- ===== src/Sign/Arithmetic.antt =====
-- `(now - ts).abs() > window` on `i64`, which wraps around.
use sa_token_rust.Common.{ℕ, ◌+◌, ◌^◌, Bool, true, false, if◌then◌else◌, ltb, eqb}
use sa_token_rust.Common.Int.{ℤ, pos, negsuc, sub_ℕ}

-- The wrapping difference of a time that is not negative and any `i64`.
unfoldable pub elapsed : ℕ → ℤ → ℤ
elapsed now (pos t) = sub_ℕ now t
elapsed now (negsuc t) =
    if ltb (now + t + 1) (2 ^ 63) then pos (now + t + 1) else sub_ℕ (now + t + 1) (2 ^ 64)

-- `abs` of the least `i64` is itself.
unfoldable pub abs : ℤ → ℤ
abs (pos n) = pos n
abs (negsuc n) = if eqb (n + 1) (2 ^ 63) then negsuc n else pos (n + 1)

-- `x > y`.
unfoldable pub gtb : ℤ → ℤ → Bool
gtb (pos a) (pos b) = ltb b a
gtb (pos a) (negsuc b) = true
gtb (negsuc a) (pos b) = false
gtb (negsuc a) (negsuc b) = ltb a b

unfoldable pub outside : ℕ → ℤ → ℤ → Bool
unfolding elapsed abs gtb
outside now ts window = gtb (abs (elapsed now ts)) window
