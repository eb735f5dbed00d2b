-- ===== src/Matching/Intervals/Intersection.antt =====
-- The loop with two indices measures the common time of two chains, in either order of arguments.
use buddy_web_ver.Base.{
  ℕ, ◌+◌, ◌-◌, ◌≤◌, ◌≡◌, ◌∙◌, sym, Bool, false, ◌&&◌, ◌||◌, List, [], ◌∷◌, arith, max, min,
}
use buddy_web_ver.Matching.Intervals.{
  UtcInterval, overlap, intersection_microseconds, duration_microseconds,
}
use buddy_web_ver.Matching.Intervals.Measure.{
  inside, covered, count, IsChain, EndsBy, count-split, count-ext, count_interval, count_none,
  count-or, covered_before, duration-count,
}

abbrev pub common : List UtcInterval → List UtcInterval → ℕ → Bool
common left right t = covered left t && covered right t

overlap-count :
    (n : ℕ) (l r : UtcInterval) → l.1 ≤ n → overlap l r ≡ count n (λ t. inside l t && inside r t)
overlap-count n (a, b) (c, d) h =
    clip
    ∙ sym (
        count-ext n (λ t. inside (a, b) t && inside (c, d) t) (inside (max a c, min b d))
          (λ t. ground arith)
        ∙ count_interval n (max a c) (min b d) (omega arith))
  where
    clip : overlap (a, b) (c, d) ≡ min b d - max a c
    clip = ground arith

module _ (n lo hi : ℕ) (l r : UtcInterval) (left right : List UtcInterval)
    (c : IsChain lo (l ∷ left)) (d : IsChain hi (r ∷ right)) where
  -- Of two first intervals, the one that ends first meets no later one.
  leave_left :
      l.1 ≤ r.1
      → count n (common (l ∷ left) (r ∷ right))
        ≡ count n (λ t. inside l t && inside r t) + count n (common left (r ∷ right))
  leave_left h =
      count-split n (common (l ∷ left) (r ∷ right)) (λ t. inside l t && inside r t)
        (common left (r ∷ right)) (λ t. ground (arith, covered_before r.1 t right d.2))
        (λ t. ground (arith, covered_before l.1 t left c.2))

  leave_right :
      r.1 ≤ l.1
      → count n (common (l ∷ left) (r ∷ right))
        ≡ count n (λ t. inside l t && inside r t) + count n (common (l ∷ left) right)
  leave_right h =
      count-split n (common (l ∷ left) (r ∷ right)) (λ t. inside l t && inside r t)
        (common (l ∷ left) right) (λ t. ground (arith, covered_before l.1 t left c.2))
        (λ t. ground (arith, covered_before r.1 t right d.2))

-- The loop's total is the number of instants that both chains cover.
pub intersection-count :
    (n lo hi : ℕ) (left right : List UtcInterval)
    → IsChain lo left
    → IsChain hi right
    → EndsBy n left
    → EndsBy n right
    → intersection_microseconds left right ≡ count n (common left right)
unfolding intersection_microseconds
intersection-count n lo hi [] right c d b e = sym (count_none n)
intersection-count n lo hi (l ∷ left) [] c d b e =
    sym (count-ext n (common (l ∷ left) []) (λ t. false) (λ t. ground arith) ∙ count_none n)
intersection-count n lo hi (l ∷ left) (r ∷ right) c d b e = ground (
  arith,
  overlap-count n l r b.0,
  leave_left n lo hi l r left right c d,
  leave_right n lo hi l r left right c d,
  intersection-count n l.1 hi left (r ∷ right) c.2 d b.1 e,
  intersection-count n lo r.1 (l ∷ left) right c d.2 b e.1,
)

-- Of two chains, the loop's total and the rest of the two durations, `left + right - intersection`,
-- are the numbers of instants that both cover and that one of them covers.
pub intersection_and_union :
    (n lo hi : ℕ) (left right : List UtcInterval)
    → IsChain lo left
    → IsChain hi right
    → EndsBy n left
    → EndsBy n right
    → (intersection_microseconds left right ≡ count n (common left right))
      × (duration_microseconds left
            + duration_microseconds right
            - intersection_microseconds left right
          ≡ count n (λ t. covered left t || covered right t))
intersection_and_union n lo hi left right c d b e =
    let both = intersection-count n lo hi left right c d b e in
    (
      both,
      omega (
        arith,
        both,
        duration-count n lo left c b,
        duration-count n hi right d e,
        count-or n (covered left) (covered right),
      ),
    )
