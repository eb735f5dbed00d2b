-- ===== src/Matching/Availability/Similarity.antt =====
-- The similarity of two availabilities is the share of the common instants among all instants that
-- one of the two covers; it is symmetric and at most 1.
use buddy_web_ver.Base.{
  ℕ, ◌≤◌, ◌≡◌, refl, ◌∙◌, sym, ap₂, ◌&&◌, ◌||◌, Option, none, some, List, [], ◌∷◌, ◌==◌,
  if◌then◌else◌, arith, max,
}
use buddy_web_ver.Models.Profile.{WeeklyAvailability, WeeklyAvailabilitySlot}
use buddy_web_ver.Text.{Text}
use buddy_web_ver.Matching.Fractions.{Fraction, zero_fraction}
use buddy_web_ver.Matching.Fractions.Laws.{IsUpTo}
use buddy_web_ver.Matching.Intervals.{UtcInterval}
use buddy_web_ver.Matching.Intervals.Measure.{
  covered, count, IsChain, EndsBy, count-ext, count-or, count-and-le,
}
use buddy_web_ver.Matching.Intervals.Merge.{IsProper, merge_sort}
use buddy_web_ver.Matching.Intervals.Intersection.{intersection_and_union}
use buddy_web_ver.Matching.Availability.{
  ToUtc, keep_positive, slot_interval, slot_intervals, raw_intervals, merged_utc_intervals,
  availability_similarity,
}

-- A time after the end of every interval.
latest : List UtcInterval → ℕ
latest [] = 0
latest (i ∷ is) = max i.1 (latest is)

EndsBy-latest : (n : ℕ) (is : List UtcInterval) → latest is ≤ n → EndsBy n is
unfolding latest
EndsBy-latest n [] h = tt
EndsBy-latest n (i ∷ is) h = (omega arith, EndsBy-latest n is (omega arith))

keep_positive-IsProper :
    (i : UtcInterval) (is : List UtcInterval) → IsProper is → IsProper (keep_positive i is)
keep_positive-IsProper i is p = ground arith

-- The fraction of two measures, which is zero where there is nothing to share.
abbrev pub share : ℕ → ℕ → Fraction
share both either =
    if either == 0 then zero_fraction else record { numerator = both; denominator = either }

module _ (to_utc : ToUtc) (week : ℕ) where
  slot_intervals-IsProper :
      (timezone : Text) (slots : List WeeklyAvailabilitySlot)
      → IsProper (slot_intervals to_utc timezone week slots)
  unfolding slot_intervals
  slot_intervals-IsProper timezone [] = tt
  slot_intervals-IsProper timezone (slot ∷ slots) =
      keep_positive-IsProper (slot_interval to_utc timezone week slot) _
        (slot_intervals-IsProper timezone slots)

  raw_intervals-IsProper : (a : Option WeeklyAvailability) → IsProper (raw_intervals to_utc a week)
  raw_intervals-IsProper none = tt
  raw_intervals-IsProper (some a) = slot_intervals-IsProper a.timezone a.slots

  merged_facts :
      (n : ℕ) (a : Option WeeklyAvailability)
      → EndsBy n (raw_intervals to_utc a week)
      → ((t : ℕ)
          → covered (merged_utc_intervals to_utc a week) t
            ≡ covered (raw_intervals to_utc a week) t)
        × IsChain 0 (merged_utc_intervals to_utc a week)
        × EndsBy n (merged_utc_intervals to_utc a week)
  unfolding merged_utc_intervals
  merged_facts n none e = (λ t. refl, tt, tt)
  merged_facts n (some a) e =
      merge_sort n (raw_intervals to_utc (some a) week) (raw_intervals-IsProper (some a)) e

  -- The similarity is the share of the instants that both weeks cover among those that one of them
  -- covers, by the slots as they are given, up to any time `n` after the end of both.
  pub similarity_measure :
      (n : ℕ) (a b : Option WeeklyAvailability)
      → EndsBy n (raw_intervals to_utc a week)
      → EndsBy n (raw_intervals to_utc b week)
      → let in_a = covered (raw_intervals to_utc a week) in
        let in_b = covered (raw_intervals to_utc b week) in
        availability_similarity to_utc a b week
        ≡ share (count n (λ t. in_a t && in_b t)) (count n (λ t. in_a t || in_b t))
  unfolding availability_similarity
  similarity_measure n a b ea eb =
      let (same_a, chain_a, ends_a) = merged_facts n a ea in
      let (same_b, chain_b, ends_b) = merged_facts n b eb in
      let (both, either) =
        intersection_and_union n 0 0 (merged_utc_intervals to_utc a week)
          (merged_utc_intervals to_utc b week) chain_a chain_b ends_a ends_b in
      ap₂ share (both ∙ count-ext n _ _ (λ t. ap₂ (λ p q. p && q) (same_a t) (same_b t)))
        (either ∙ count-ext n _ _ (λ t. ap₂ (λ p q. p || q) (same_a t) (same_b t)))

  -- A time after both weeks.
  after_both : Option WeeklyAvailability → Option WeeklyAvailability → ℕ
  after_both a b = max (latest (raw_intervals to_utc a week)) (latest (raw_intervals to_utc b week))

  ends_after :
      (a b : Option WeeklyAvailability)
      → EndsBy (after_both a b) (raw_intervals to_utc a week)
        × EndsBy (after_both a b) (raw_intervals to_utc b week)
  unfolding after_both
  ends_after a b = (
    EndsBy-latest _ (raw_intervals to_utc a week) (omega arith),
    EndsBy-latest _ (raw_intervals to_utc b week) (omega arith),
  )

  pub similarity_comm :
      (a b : Option WeeklyAvailability)
      → availability_similarity to_utc a b week ≡ availability_similarity to_utc b a week
  similarity_comm a b =
      let n = after_both a b in
      let (ea, eb) = ends_after a b in
      similarity_measure n a b ea eb
      ∙ ap₂ share (count-ext n _ _ (λ t. ground arith)) (count-ext n _ _ (λ t. ground arith))
      ∙ sym (similarity_measure n b a eb ea)

  pub similarity-IsUpTo :
      (a b : Option WeeklyAvailability) → IsUpTo 1 (availability_similarity to_utc a b week)
  similarity-IsUpTo a b =
      let n = after_both a b in
      let (ea, eb) = ends_after a b in
      let in_a = covered (raw_intervals to_utc a week) in
      let in_b = covered (raw_intervals to_utc b week) in
      rw (similarity_measure n a b ea eb)
        (ground (arith, count-or n in_a in_b, count-and-le n in_a in_b))
