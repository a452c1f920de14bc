-- ===== src/Int64.antt =====
-- The int64 arithmetic of internal/analysisjob/manager.go and internal/sttcorpus/sttcorpus.go. An
-- int64 x stands as the number x + 2^63, so that the order is that of numbers; a product wraps around.
use audio_server.Common.{ℕ, ◌+◌, ◌-◌, ◌*◌, ◌/◌, ◌%◌, ◌≤◌, ◌<◌, ◌≡◌, ltb, if◌then◌else◌, arith}
use native.Mathlib.Nat.{div-mul-le_self, le-div_iff_mul-le}

-- The place of 0.
abbrev pub origin : ℕ
origin = 9223372036854775808

-- (p - origin) * k + origin, modulo 2^64.
unfoldable pub times : ℕ → ℕ → ℕ
times p k = (p * k + origin * k + origin) % 18446744073709551616

-- The sum, modulo 2^64.
unfoldable pub plus : ℕ → ℕ → ℕ
plus p q = (p + q + origin) % 18446744073709551616

-- The quotient by a positive number, truncated towards 0.
unfoldable pub quotient : ℕ → ℕ → ℕ
quotient q k =
    let below = origin - (origin - q) / k in
    let above = origin + (q - origin) / k in if ltb q origin then below else above

-- A number whose thousandfold is an int64.
abbrev pub Fits : ℕ → Type 0
Fits p = ((origin - p) * 1000 ≤ origin) × ((p - origin) * 1000 < origin)

times-thousand :
    (p : ℕ) → Fits p → times p 1000 ≡ origin + (p - origin) * 1000 - (origin - p) * 1000
unfolding times
times-thousand p (a, b) = omega (arith, a, b)

div-le_mono : (a b k : ℕ) → 0 < k → a ≤ b → a / k ≤ b / k
div-le_mono a b k h le = (le-div_iff_mul-le h).1 (omega (arith, div-mul-le_self a k, le))

quotient-le_mono : (a b k : ℕ) → 0 < k → a ≤ b → quotient a k ≤ quotient b k
unfolding quotient
quotient-le_mono a b k h le = ground (
  arith,
  le,
  div-le_mono (origin - b) (origin - a) k h (omega (arith, le)),
  div-le_mono (a - origin) (b - origin) k h (omega (arith, le)),
)

pub to_ms-le_mono :
    (p q rate : ℕ)
    → 0 < rate
    → Fits p
    → Fits q
    → p ≤ q
    → quotient (times p 1000) rate ≤ quotient (times q 1000) rate
to_ms-le_mono p q rate h f g le =
    quotient-le_mono (times p 1000) (times q 1000) rate h
      (omega (arith, times-thousand p f, times-thousand q g, le))
