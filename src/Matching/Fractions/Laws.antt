-- ===== src/Matching/Fractions/Laws.antt =====
-- Sums, bounds and rounding of fractions.
use native.Mathlib.Nat.{div-add-mod, mul-div-mul_left}
use native.Mathlib.Decide.{dec_lt, dec_le}
use buddy_web_ver.Base.{ℕ, ◌+◌, ◌*◌, ◌/◌, ◌%◌, ◌≤◌, ◌<◌, ◌≡◌, true, leb, if◌then◌else◌, arith, ap}
use buddy_web_ver.Matching.Fractions.{Fraction, ◌+f◌, times, fraction_eq, round_half_up}

-- A fraction of at most `n`, with a positive denominator.
pub record IsUpTo (n : ℕ) (a : Fraction) : Type 0 where
  pub positive : 0 < a.denominator
  pub bounded : a.numerator ≤ n * a.denominator

scaled : (k : ℕ) {a b : ℕ} → a ≤ b → a * k ≤ b * k
scaled k h = grind arith

pub +f-IsUpTo : (m n : ℕ) (a b : Fraction) → IsUpTo m a → IsUpTo n b → IsUpTo (m + n) (a +f b)
unfolding ◌+f◌
+f-IsUpTo m n a b h k = record {
  positive = grind arith;
  bounded = omega (arith, scaled b.denominator h.bounded, scaled a.denominator k.bounded);
}

pub times-IsUpTo : (n : ℕ) (a : Fraction) → IsUpTo 1 a → IsUpTo n (times a n)
unfolding times
times-IsUpTo n a h = record { positive = h.positive; bounded = grind arith }

pub fraction_eq_refl : (a : Fraction) → fraction_eq a a ≡ true
unfolding fraction_eq
fraction_eq_refl a = ground arith

-- Rounding goes to the nearest whole number, and up from a half.
pub round_half_up_nearest :
    (a : Fraction)
    → 0 < a.denominator
    → (2 * (round_half_up a * a.denominator) ≤ 2 * a.numerator + a.denominator)
      × (2 * a.numerator < 2 * (round_half_up a * a.denominator) + a.denominator)
unfolding round_half_up
round_half_up_nearest a h = ground arith

rounded :
    (n q r d m : ℕ) → 0 < d → d * q + r ≡ m → m ≤ n * d → q + (if leb d (r * 2) then 1 else 0) ≤ n
rounded n q r d m p e h = elim (dec_lt q n) [
  | yes lt ↦ ground arith
  | no ge ↦ ground (arith, scaled d {a = n} {b = q} (omega arith), λ (gt : n + 1 ≤ q). scaled d gt)
]

pub round_half_up-le : (n : ℕ) (a : Fraction) → IsUpTo n a → round_half_up a ≤ n
unfolding round_half_up
round_half_up-le n a h =
    rounded n (a.numerator / a.denominator) (a.numerator % a.denominator) a.denominator a.numerator
      h.positive (div-add-mod a.numerator a.denominator) h.bounded

mod_scaled : (k n d : ℕ) → 0 < k → k * n % (k * d) ≡ k * (n % d)
mod_scaled k n d h = omega (
  arith,
  div-add-mod (k * n) (k * d),
  ap (λ (t : ℕ). k * d * t) (mul-div-mul_left n d h),
  ap (λ (t : ℕ). k * t) (div-add-mod n d),
)

leb_scaled : (k d r : ℕ) → 0 < k → leb (k * d) (k * r * 2) ≡ leb d (r * 2)
leb_scaled k d r h = elim (dec_le d (r * 2)) [
  | yes le ↦ ground (arith, scaled k le)
  | no gt ↦ ground (arith, scaled k {a = r * 2 + 1} {b = d} (omega arith))
]

-- Lowest terms do not matter to rounding.
pub round_half_up-scale :
    (k n d : ℕ)
    → 0 < k
    → 0 < d
    → round_half_up (record { numerator = k * n; denominator = k * d })
      ≡ round_half_up (record { numerator = n; denominator = d })
unfolding round_half_up
round_half_up-scale k n d h p =
    rw (mul-div-mul_left n d h, mod_scaled k n d h)
      (ap (λ b. n / d + (if b then 1 else 0)) (leb_scaled k d (n % d) h))
