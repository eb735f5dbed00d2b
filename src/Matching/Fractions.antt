-- ===== src/Matching/Fractions.antt =====
-- The exact fractions of the scores: `fractions.Fraction`, for values that are not negative. A
-- fraction is kept as it was formed, with a positive denominator; what the code reads of one does
-- not depend on lowest terms (`round_half_up-scale`).
pub mod Laws
use buddy_web_ver.Base.{ℕ, ◌+◌, ◌*◌, ◌/◌, ◌%◌, ◌≤◌, ◌<◌, Bool, ◌==◌, leb, if◌then◌else◌}

pub record Fraction : Type 0 where
  pub numerator : ℕ
  pub denominator : ℕ

abbrev pub zero_fraction : Fraction
zero_fraction = record { numerator = 0; denominator = 1 }

abbrev pub one_fraction : Fraction
one_fraction = record { numerator = 1; denominator = 1 }

infixl 65 ◌+f◌
unfoldable pub ◌+f◌ : Fraction → Fraction → Fraction
a +f b = record {
  numerator = a.numerator * b.denominator + b.numerator * a.denominator;
  denominator = a.denominator * b.denominator;
}

unfoldable pub times : Fraction → ℕ → Fraction
times a n = record { numerator = a.numerator * n; denominator = a.denominator }

-- `a == b`, `a <= n` and `a < b` by value.
unfoldable pub fraction_eq : Fraction → Fraction → Bool
fraction_eq a b = a.numerator * b.denominator == b.numerator * a.denominator

unfoldable pub at_most : Fraction → ℕ → Bool
at_most a n = leb a.numerator (n * a.denominator)

unfoldable pub fraction_le : Fraction → Fraction → Bool
fraction_le a b = leb (a.numerator * b.denominator) (b.numerator * a.denominator)

unfoldable pub round_half_up : Fraction → ℕ
round_half_up value =
    let whole = value.numerator / value.denominator in
    let remainder = value.numerator % value.denominator in
    whole + (if leb value.denominator (remainder * 2) then 1 else 0)
