-- ===== src/Matching/Intervals/Merge.antt =====
-- Sorting and merging keep the covered time and leave a chain.
use buddy_web_ver.Base.{ℕ, ◌≤◌, ◌<◌, ◌≡◌, refl, ◌∙◌, ap, ◌||◌, List, [], ◌∷◌, arith, max}
use buddy_web_ver.Matching.Intervals.{
  UtcInterval, insert_interval, sort_intervals, merge_from, merge_sorted,
}
use buddy_web_ver.Matching.Intervals.Measure.{inside, covered, IsChain, EndsBy}

-- No interval is empty, as `if end > start` sees to.
abbrev pub IsProper : List UtcInterval → Type 0
IsProper [] = Unit
IsProper ((start, end) ∷ is) = (start < end) × IsProper is

-- Sorted by start.
abbrev pub StartsFrom : ℕ → List UtcInterval → Type 0
StartsFrom lo [] = Unit
StartsFrom lo ((start, end) ∷ is) = (lo ≤ start) × StartsFrom start is

covered-insert :
    (i : UtcInterval) (is : List UtcInterval) (t : ℕ)
    → covered (insert_interval i is) t ≡ (inside i t || covered is t)
covered-insert i [] t = refl
covered-insert i (j ∷ js) t = ground (arith, covered-insert i js t)

covered-sort : (is : List UtcInterval) (t : ℕ) → covered (sort_intervals is) t ≡ covered is t
covered-sort [] t = refl
covered-sort (i ∷ is) t =
    covered-insert i (sort_intervals is) t ∙ ap (λ b. inside i t || b) (covered-sort is t)

insert-StartsFrom :
    (lo : ℕ) (i : UtcInterval) (is : List UtcInterval)
    → lo ≤ i.0
    → StartsFrom lo is
    → StartsFrom lo (insert_interval i is)
insert-StartsFrom lo i [] h s = (h, tt)
insert-StartsFrom lo i (j ∷ js) h s = ground (arith, insert-StartsFrom j.0 i js)

sort-StartsFrom : (is : List UtcInterval) → StartsFrom 0 (sort_intervals is)
sort-StartsFrom [] = tt
sort-StartsFrom (i ∷ is) =
    insert-StartsFrom 0 i (sort_intervals is) (omega arith) (sort-StartsFrom is)

insert-IsProper :
    (i : UtcInterval) (is : List UtcInterval)
    → i.0 < i.1
    → IsProper is
    → IsProper (insert_interval i is)
insert-IsProper i [] h s = (h, tt)
insert-IsProper i (j ∷ js) h s = ground (arith, insert-IsProper i js)

sort-IsProper : (is : List UtcInterval) → IsProper is → IsProper (sort_intervals is)
sort-IsProper [] h = tt
sort-IsProper (i ∷ is) h = insert-IsProper i (sort_intervals is) h.0 (sort-IsProper is h.1)

insert-EndsBy :
    (n : ℕ) (i : UtcInterval) (is : List UtcInterval)
    → i.1 ≤ n
    → EndsBy n is
    → EndsBy n (insert_interval i is)
insert-EndsBy n i [] h s = (h, tt)
insert-EndsBy n i (j ∷ js) h s = ground (arith, insert-EndsBy n i js)

sort-EndsBy : (n : ℕ) (is : List UtcInterval) → EndsBy n is → EndsBy n (sort_intervals is)
sort-EndsBy n [] h = tt
sort-EndsBy n (i ∷ is) h = insert-EndsBy n i (sort_intervals is) h.0 (sort-EndsBy n is h.1)

StartsFrom-mono :
    (lo hi : ℕ) (is : List UtcInterval) → lo ≤ hi → StartsFrom hi is → StartsFrom lo is
StartsFrom-mono lo hi [] h s = tt
StartsFrom-mono lo hi (i ∷ is) h s = (omega arith, s.1)

covered-merge_from :
    (ps pe : ℕ) (is : List UtcInterval) (t : ℕ)
    → StartsFrom ps is
    → ps < pe
    → IsProper is
    → covered (merge_from ps pe is) t ≡ (inside (ps, pe) t || covered is t)
unfolding merge_from
covered-merge_from ps pe [] t s h p = refl
covered-merge_from ps pe ((a, b) ∷ is) t s h p = ground (
  arith,
  covered-merge_from a b is t s.1 p.0 p.1,
  covered-merge_from ps (max pe b) is t (StartsFrom-mono ps a is s.0 s.1) (omega arith) p.1,
)

merge_from-IsChain :
    (lo ps pe : ℕ) (is : List UtcInterval)
    → lo ≤ ps
    → ps < pe
    → StartsFrom ps is
    → IsProper is
    → IsChain lo (merge_from ps pe is)
unfolding merge_from
merge_from-IsChain lo ps pe [] l h s p = (l, h, tt)
merge_from-IsChain lo ps pe ((a, b) ∷ is) l h s p = ground (
  arith,
  merge_from-IsChain pe a b is,
  merge_from-IsChain lo ps (max pe b) is l (omega arith) (StartsFrom-mono ps a is s.0 s.1) p.1,
)

merge_from-EndsBy :
    (n ps pe : ℕ) (is : List UtcInterval) → pe ≤ n → EndsBy n is → EndsBy n (merge_from ps pe is)
unfolding merge_from
merge_from-EndsBy n ps pe [] l h = (l, tt)
merge_from-EndsBy n ps pe ((a, b) ∷ is) l h = ground (
  arith,
  merge_from-EndsBy n a b is h.0 h.1,
  merge_from-EndsBy n ps (max pe b) is (omega arith) h.1,
)

pub covered-merge_sorted :
    (lo : ℕ) (is : List UtcInterval) (t : ℕ)
    → StartsFrom lo is
    → IsProper is
    → covered (merge_sorted is) t ≡ covered is t
unfolding merge_sorted
covered-merge_sorted lo [] t s p = refl
covered-merge_sorted lo ((a, b) ∷ is) t s p = covered-merge_from a b is t s.1 p.0 p.1

merge_sorted-IsChain :
    (lo : ℕ) (is : List UtcInterval) → StartsFrom lo is → IsProper is → IsChain lo (merge_sorted is)
unfolding merge_sorted
merge_sorted-IsChain lo [] s p = tt
merge_sorted-IsChain lo ((a, b) ∷ is) s p = merge_from-IsChain lo a b is s.0 p.0 s.1 p.1

merge_sorted-EndsBy : (n : ℕ) (is : List UtcInterval) → EndsBy n is → EndsBy n (merge_sorted is)
unfolding merge_sorted
merge_sorted-EndsBy n [] h = tt
merge_sorted-EndsBy n ((a, b) ∷ is) h = merge_from-EndsBy n a b is h.0 h.1

-- Sorting and merging proper intervals gives proper intervals in order, apart from one another, with
-- the same instants covered and the same bound.
pub merge_sort :
    (n : ℕ) (is : List UtcInterval)
    → IsProper is
    → EndsBy n is
    → let merged = merge_sorted (sort_intervals is) in
      ((t : ℕ) → covered merged t ≡ covered is t) × IsChain 0 merged × EndsBy n merged
merge_sort n is p b = (
  λ t.
      covered-merge_sorted 0 (sort_intervals is) t (sort-StartsFrom is) (sort-IsProper is p)
      ∙ covered-sort is t,
  merge_sorted-IsChain 0 (sort_intervals is) (sort-StartsFrom is) (sort-IsProper is p),
  merge_sorted-EndsBy n (sort_intervals is) (sort-EndsBy n is b),
)
