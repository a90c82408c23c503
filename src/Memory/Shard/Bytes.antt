-- ===== src/Memory/Shard/Bytes.antt =====
-- The UTF-8 bytes of a text are bytes, and they determine the text: `as_bytes`.
use Prim.Native.Char.{char, code, IsScalar}
use Prim.Native.String.{String}
use sa_token_rust.Common.{ℕ, ◌≡◌, ◌<◌, refl, List, [], ◌++◌, arith, ◌≢◌, sym, ap, true, ◌↔◌}
use text.Mathlib.TextEquality.{Char-path}
use sa_token_rust.HttpBasic.ConstantTime.{AreBytes, ct_eq_iff}
use sa_token_rust.HttpBasic.{ct_eq}
use sa_token_rust.Memory.Shard.{utf8, bytes}

utf8-prefix : (c d : ℕ) (s t : List ℕ) → (utf8 c ++ s) ≡ (utf8 d ++ t) → (c ≡ d) × (s ≡ t)
unfolding utf8
utf8-prefix c d s t h = ground arith

scalar-lt : (n : ℕ) → IsScalar n → n < 0x110000
scalar-lt n h = ground arith

utf8-AreBytes : (c : ℕ) (s : List ℕ) → c < 0x110000 → AreBytes s → AreBytes (utf8 c ++ s)
unfolding utf8
utf8-AreBytes c s h a = ground arith

pub bytes-AreBytes : (s : String) → AreBytes (bytes s)
unfolding bytes
bytes-AreBytes String.[] = tt
bytes-AreBytes (String.◌∷◌ (char n p) s) =
    utf8-AreBytes n (bytes s) (scalar-lt n p) (bytes-AreBytes s)

utf8-ne-nil : (c : ℕ) (s : List ℕ) → (utf8 c ++ s) ≢ []
unfolding utf8
utf8-ne-nil c s h = ground arith

-- No two texts have the same bytes.
pub bytes_injective : (s t : String) → bytes s ≡ bytes t → s ≡ t
unfolding bytes
bytes_injective String.[] String.[] h = refl
bytes_injective String.[] (String.◌∷◌ d t) h = absurd (utf8-ne-nil (code d) (bytes t) (sym h))
bytes_injective (String.◌∷◌ c s) String.[] h = absurd (utf8-ne-nil (code c) (bytes s) h)
bytes_injective (String.◌∷◌ c s) (String.◌∷◌ d t) h =
    let (e, rest) = utf8-prefix (code c) (code d) (bytes s) (bytes t) h in
    let first = Char-path c d e in
    let others = bytes_injective s t rest in λ i. String.◌∷◌ (first i) (others i)

-- `ct_eq` on the bytes of two texts decides whether they are the same text.
pub ct_eq-bytes_iff : (s t : String) → (ct_eq (bytes s) (bytes t) ≡ true) ↔ (s ≡ t)
ct_eq-bytes_iff s t =
    let decided = ct_eq_iff (bytes s) (bytes t) (bytes-AreBytes s) (bytes-AreBytes t) in
    (λ h. bytes_injective s t (decided.0 h), λ e. decided.1 (ap bytes e))
