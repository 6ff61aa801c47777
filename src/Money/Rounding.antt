-- ===== src/Money/Rounding.antt =====
-- Bounds on the rounding errors.
-- Code: packages/shared/src/money/money.ts
use native.Mathlib.Nat.{div-add-mod, div-le_of_le-mul, mod-lt, pow-suc}
use elonew.Base.{ℕ, zero, suc, ◌+◌, ◌*◌, ◌/◌, ◌%◌, ◌^◌, ◌≤◌, ◌<◌, ◌≡◌, refl, ◌⊎◌, inl, inr, arith}
use elonew.Money.Double.{nearest_even, excess, round_53, math_round}

-- The quotient, where the remainder is at most half of the divisor, or its successor.
nearest_even-cases :
    (a b : ℕ)
    → ((nearest_even a b ≡ a / b) × (2 * (a % b) ≤ b))
      ⊎ ((nearest_even a b ≡ a / b + 1) × (b ≤ 2 * (a % b)))
unfolding nearest_even
nearest_even-cases a b = ground arith

pub nearest_even_error :
    (a b : ℕ)
    → 0 < b
    → (2 * (nearest_even a b * b) ≤ 2 * a + b) × (2 * a ≤ 2 * (nearest_even a b * b) + b)
nearest_even_error a b h = elim (nearest_even-cases a b) [
  | inl (down, r) ↦ rw down (omega (arith, div-add-mod a b, mod-lt a h))
  | inr (up, r) ↦ rw up (omega (arith, div-add-mod a b, mod-lt a h))
]

pub nearest_even-le : (a b c : ℕ) → 0 < b → a ≤ c * b → nearest_even a b ≤ c
unfolding nearest_even
nearest_even-le a b c h l =
    ground (arith, div-le_of_le-mul b {m = a} {n = c}, div-add-mod a b, mod-lt a h)

pub two_pow_pos : (n : ℕ) → 0 < 2 ^ n
two_pow_pos zero = omega arith
two_pow_pos (suc n) = omega (arith, pow-suc 2 n, two_pow_pos n)

-- A number with bits to spare has at least 53 bits.
pub excess_low : (f p : ℕ) → (excess f p ≡ 0) ⊎ (2 ^ 52 * 2 ^ excess f p ≤ p)
unfolding excess
excess_low zero p = inl refl
excess_low (suc f) p = ground (arith, excess_low f (p / 2), pow-suc 2 (excess f (p / 2)))

-- Rounding to 53 bits moves a number by at most its 2 ^ 53rd part.
pub round_53_error :
    (p : ℕ) → (2 ^ 53 * round_53 p ≤ (2 ^ 53 + 1) * p) × (2 ^ 53 * p ≤ 2 ^ 53 * round_53 p + p)
unfolding round_53
round_53_error p =
    let e = nearest_even_error p (2 ^ excess 64 p) (two_pow_pos _) in
    elim (excess_low 64 p) [
      | inl z ↦ rw z (omega (arith, nearest_even_error p 1 (omega arith)))
      | inr l ↦ omega (arith, e, l)
    ]

-- The value of a product, against the exact one: `x.mant * y.mant` over the same power of two.
-- `Math.round` of a number close to `a / 2 ^ k` is close to it.
pub math_round_error :
    (m k : ℕ)
    → let r = math_round (record { mant = m; scale = k }) in
      (2 * (r * 2 ^ k) ≤ 2 * m + 2 ^ k) × (2 * m < 2 * (r * 2 ^ k) + 2 ^ k)
unfolding math_round
math_round_error m k = omega (
  arith,
  div-add-mod (2 * m + 2 ^ k) (2 * 2 ^ k),
  mod-lt (2 * m + 2 ^ k) {m = 2 * 2 ^ k} (omega (arith, two_pow_pos k)),
)
