-- ===== src/Sign/Window.antt =====
-- The time window of request signing: what `(now - ts).abs() > window` admits.
use sa_token_rust.Common.{ℕ, ◌+◌, ◌^◌, ◌≤◌, ◌<◌, ◌≡◌, ◌⊎◌, inl, false, arith}
use sa_token_rust.Common.Int.{ℤ, pos, negsuc}
use sa_token_rust.Common.Decimal.RoundTrip.{Fits}
use sa_token_rust.Sign.Arithmetic.{outside}

-- The time differs from the present by at most the window.
abbrev pub Near : ℕ → ℤ → ℕ → Type 0
Near now (pos t) w = (t ≤ now + w) × (now ≤ t + w)
Near now (negsuc t) w = now + t + 1 ≤ w

-- The time is 2^63 seconds before the present, where the subtraction wraps to the least `i64`.
abbrev pub Wraps : ℕ → ℤ → Type 0
Wraps now (pos t) = ⊥
Wraps now (negsuc t) = now + t + 1 ≡ 2 ^ 63

pub outside_lem :
    (now w : ℕ) (ts : ℤ)
    → now < 2 ^ 62
    → w < 2 ^ 62
    → Fits 63 ts
    → outside now ts (pos w) ≡ false
    → Near now ts w ⊎ Wraps now ts
unfolding outside
outside_lem now w (pos t) hn hw ht h = inl (ground arith)
outside_lem now w (negsuc t) hn hw ht h = ground arith

pub outside-Near :
    (now w : ℕ) (ts : ℤ) → w < 2 ^ 62 → Near now ts w → outside now ts (pos w) ≡ false
unfolding outside
outside-Near now w (pos t) hw h = ground arith
outside-Near now w (negsuc t) hw h = ground arith

-- A time 2^63 seconds before the present is taken to lie inside every window: the subtraction wraps
-- to the least `i64`, whose absolute value is itself.
pub outside-Wraps : (now w : ℕ) (ts : ℤ) → Wraps now ts → outside now ts (pos w) ≡ false
unfolding outside
outside-Wraps now w (pos t) h = elim h [ ]
outside-Wraps now w (negsuc t) h = ground arith
