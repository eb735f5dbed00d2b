-- ===== src/Matching/Intervals.antt =====
-- Sorted, merged and intersected time intervals
-- (`_merged_utc_intervals`, `_duration_microseconds` and `_intersection_microseconds` of
-- apps/api/app/services/matching_scoring.py). An interval is a pair of UTC instants.
pub mod Measure
pub mod Merge
pub mod Intersection
use buddy_web_ver.Base.{
  ℕ, ◌+◌, ◌-◌, Bool, true, false, ◌&&◌, ◌||◌, List, [], ◌∷◌, ltb, leb, ◌==◌, if◌then◌else◌, min,
  max,
}

abbrev pub UtcInterval : Type 0
UtcInterval = ℕ × ℕ

-- The order of tuples.
abbrev pub interval_le : UtcInterval → UtcInterval → Bool
interval_le (a, b) (c, d) = ltb a c || (a == c && leb b d)

abbrev pub insert_interval : UtcInterval → List UtcInterval → List UtcInterval
insert_interval i [] = i ∷ []
insert_interval i (j ∷ js) = if interval_le i j then i ∷ j ∷ js else j ∷ insert_interval i js

-- `sorted(intervals)`
abbrev pub sort_intervals : List UtcInterval → List UtcInterval
sort_intervals [] = []
sort_intervals (i ∷ is) = insert_interval i (sort_intervals is)

-- The loop that merges sorted intervals; the first argument is the last one merged so far.
unfoldable pub merge_from : ℕ → ℕ → List UtcInterval → List UtcInterval
merge_from previous_start previous_end [] = (previous_start, previous_end) ∷ []
merge_from previous_start previous_end ((start, end) ∷ rest) = elim (ltb previous_end start) [
  | true ↦ (previous_start, previous_end) ∷ merge_from start end rest
  | false ↦ merge_from previous_start (max previous_end end) rest
]

unfoldable pub merge_sorted : List UtcInterval → List UtcInterval
merge_sorted [] = []
merge_sorted ((start, end) ∷ rest) = merge_from start end rest

unfoldable pub duration_microseconds : List UtcInterval → ℕ
duration_microseconds [] = 0
duration_microseconds ((start, end) ∷ rest) = (end - start) + duration_microseconds rest

-- What one step of the loop below adds.
abbrev pub overlap : UtcInterval → UtcInterval → ℕ
overlap (left_start, left_end) (right_start, right_end) =
    let start = max left_start right_start in
    let end = min left_end right_end in if ltb start end then end - start else 0

-- The loop with two indices: the interval that ends first is left behind.
unfoldable pub intersection_microseconds : List UtcInterval → List UtcInterval → ℕ
intersection_microseconds [] right = 0
intersection_microseconds (l ∷ left) [] = 0
intersection_microseconds (l ∷ left) (r ∷ right) = elim (leb l.1 r.1) [
  | true ↦ overlap l r + intersection_microseconds left (r ∷ right)
  | false ↦ overlap l r + intersection_microseconds (l ∷ left) right
]
