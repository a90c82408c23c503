-- ===== src/HttpBasic.antt =====
-- Constant-time comparison: `ct_eq` of sa-token-core/src/http_basic.rs.
pub mod ConstantTime
use Prim.Native.Nat.{bit_or, bit_xor}
use sa_token_rust.Common.{ℕ, Bool, false, List, ◌∷◌, length, eqb, not, if◌then◌else◌}

-- The loop: `diff |= x ^ y` over the pairs of bytes.
diff : ℕ → List ℕ → List ℕ → ℕ
diff d (x ∷ a) (y ∷ b) = diff (bit_or d (bit_xor x y)) a b
diff d a b = d

unfoldable pub ct_eq : List ℕ → List ℕ → Bool
unfolding diff
ct_eq a b = if not (eqb (length a) (length b)) then false else eqb (diff 0 a b) 0
