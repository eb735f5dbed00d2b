-- ===== src/Matching/Intervals/Measure.antt =====
-- The time that a list of intervals covers, as a number of instants: the independent description
-- of durations.
use buddy_web_ver.Base.{
  ℕ, zero, suc, ◌+◌, ◌-◌, ◌≤◌, ◌<◌, ◌≡◌, refl, sym, Bool, false, ◌&&◌, ◌||◌, List, [], ◌∷◌, ltb,
  leb, if◌then◌else◌, arith,
}
use buddy_web_ver.Matching.Intervals.{UtcInterval, duration_microseconds}

abbrev pub inside : UtcInterval → ℕ → Bool
inside (start, end) t = leb start t && ltb t end

abbrev pub covered : List UtcInterval → ℕ → Bool
covered [] t = false
covered (i ∷ is) t = inside i t || covered is t

-- The number of instants before `n` that meet a test.
abbrev pub count : ℕ → (ℕ → Bool) → ℕ
count zero p = 0
count (suc n) p = (if p n then 1 else 0) + count n p

-- Non-empty intervals one after the other, from `lo` on.
abbrev pub IsChain : ℕ → List UtcInterval → Type 0
IsChain lo [] = Unit
IsChain lo ((start, end) ∷ is) = (lo ≤ start) × (start < end) × IsChain end is

-- Every interval ends by `n`.
abbrev pub EndsBy : ℕ → List UtcInterval → Type 0
EndsBy n [] = Unit
EndsBy n ((start, end) ∷ is) = (end ≤ n) × EndsBy n is

pub count-split :
    (n : ℕ) (w p q : ℕ → Bool)
    → ((t : ℕ) → w t ≡ (p t || q t))
    → ((t : ℕ) → (p t && q t) ≡ false)
    → count n w ≡ count n p + count n q
count-split zero w p q h d = omega arith
count-split (suc n) w p q h d = ground (arith, count-split n w p q h d, h n, d n)

pub count-ext : (n : ℕ) (p q : ℕ → Bool) → ((t : ℕ) → p t ≡ q t) → count n p ≡ count n q
count-ext zero p q h = refl
count-ext (suc n) p q h = ground (arith, count-ext n p q h, h n)

count_below : (n s e : ℕ) → n ≤ e → count n (λ t. leb s t && ltb t e) ≡ n - s
count_below zero s e h = omega arith
count_below (suc n) s e h = ground (arith, count_below n s e)

pub count_interval : (n s e : ℕ) → e ≤ n → count n (λ t. leb s t && ltb t e) ≡ e - s
count_interval zero s e h = omega arith
count_interval (suc n) s e h = ground (arith, count_interval n s e, count_below (suc n) s e)

pub count_none : (n : ℕ) → count n (λ t. false) ≡ 0
count_none zero = refl
count_none (suc n) = omega (arith, count_none n)

pub count-or :
    (n : ℕ) (p q : ℕ → Bool)
    → count n (λ t. p t || q t) + count n (λ t. p t && q t) ≡ count n p + count n q
count-or zero p q = omega arith
count-or (suc n) p q = ground (arith, count-or n p q)

pub count-and-le : (n : ℕ) (p q : ℕ → Bool) → count n (λ t. p t && q t) ≤ count n (λ t. p t || q t)
count-and-le zero p q = omega arith
count-and-le (suc n) p q = ground (arith, count-and-le n p q)

-- Before its start a chain covers nothing.
pub covered_before :
    (lo t : ℕ) (is : List UtcInterval) → IsChain lo is → t < lo → covered is t ≡ false
covered_before lo t [] c h = refl
covered_before lo t ((s, e) ∷ is) c h = ground (arith, covered_before e t is c.2)

-- The sum of the lengths of a chain is the number of instants that it covers.
pub duration-count :
    (n lo : ℕ) (is : List UtcInterval)
    → IsChain lo is
    → EndsBy n is
    → duration_microseconds is ≡ count n (covered is)
unfolding duration_microseconds
duration-count n lo [] c b = sym (count_none n)
duration-count n lo ((s, e) ∷ is) c b = omega (
  arith,
  count-split n (covered ((s, e) ∷ is)) (inside (s, e)) (covered is) (λ t. refl)
      (λ t. ground (arith, covered_before e t is c.2)),
  count_interval n s e b.0,
  duration-count n e is c.2 b.1,
)
