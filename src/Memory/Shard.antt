-- ===== src/Memory/Shard.antt =====
-- `shard_index`: FNV-1a over the bytes of the key, masked to the number of shards.
pub mod Bytes
use Prim.Native.Nat.{digits, bit_and, bit_and-bitwise, bit_xor, min}
use Prim.Native.Char.{code}
use sa_token_rust.Common.{
  ℕ, zero, suc, ◌+◌, ◌*◌, ◌/◌, ◌%◌, ◌^◌, ◌-◌, ◌≤◌, ◌<◌, String, List, [], ◌∷◌, ◌++◌, arith, ltb,
  if◌then◌else◌,
}

abbrev pub shard_count : ℕ
shard_count = 16

abbrev pub shard_mask : ℕ
shard_mask = shard_count - 1

-- The UTF-8 bytes of a code point.
utf8 : ℕ → List ℕ
utf8 c =
    if ltb c 0x80
    then c ∷ []
    else if ltb c 0x800
    then (0xc0 + c / 64) ∷ (0x80 + c % 64) ∷ []
    else if ltb c 0x10000
    then (0xe0 + c / 4096) ∷ (0x80 + c / 64 % 64) ∷ (0x80 + c % 64) ∷ []
    else (0xf0 + c / 262144) ∷ (0x80 + c / 4096 % 64) ∷ (0x80 + c / 64 % 64) ∷ (0x80 + c % 64) ∷ []

-- `as_bytes`.
unfoldable pub bytes : String → List ℕ
unfolding utf8
bytes String.[] = []
bytes (String.◌∷◌ c s) = utf8 (code c) ++ bytes s

-- The loop over the bytes; `wrapping_mul` is modulo 2 ^ 64.
hash_from : ℕ → List ℕ → ℕ
hash_from hash [] = hash
hash_from hash (byte ∷ rest) = hash_from (bit_xor hash byte * 0x100000001b3 % 2 ^ 64) rest

unfoldable pub shard_index : String → ℕ
unfolding bytes hash_from
shard_index key = bit_and (hash_from 0xcbf29ce484222325 (bytes key)) shard_mask

-- A conjunction of bits is at most its second argument.
masked_digits-le : (n a b : ℕ) → digits (λ x. zero) min n a b ≤ b
masked_digits-le zero zero b = omega arith
masked_digits-le zero (suc a) b = omega arith
masked_digits-le (suc n) zero b = omega arith
masked_digits-le (suc n) (suc a) b = omega (arith, masked_digits-le n (suc a / 2) (b / 2))

bit_and-le : (a b : ℕ) → bit_and a b ≤ b
bit_and-le a b = omega (arith, bit_and-bitwise a b, masked_digits-le a a b)

-- The index always falls on a shard.
pub shard_index-lt : (key : String) → shard_index key < shard_count
unfolding shard_index
shard_index-lt key = omega (arith, bit_and-le (hash_from 0xcbf29ce484222325 (bytes key)) shard_mask)
