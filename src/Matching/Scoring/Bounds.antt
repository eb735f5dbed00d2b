-- ===== src/Matching/Scoring/Bounds.antt =====
-- Every eligible pair has a score: the checks of the constructors never fail, and the score is the
-- rounded sum of the weighted similarities, from 0 to 100.
use buddy_web_ver.Base.{
  ℕ, ◌+◌, ◌*◌, ◌≤◌, ◌<◌, ◌≡◌, ◌∙◌, sym, subst, Bool, true, false, ◌&&◌, Option, none, some, ◌==◌,
  arith, if◌then◌else◌, List, le→leb,
}
use buddy_web_ver.Errors.{Exception, ok, err, scoring_error}
use buddy_web_ver.Text.{Text}
use buddy_web_ver.Models.Profile.{type_is}
use buddy_web_ver.Preferences.{Unicode}
use buddy_web_ver.Matching.Fractions.{Fraction, zero_fraction, times, at_most, round_half_up}
use buddy_web_ver.Matching.Fractions.Laws.{
  IsUpTo, +f-IsUpTo, times-IsUpTo, fraction_eq_refl, round_half_up-le, round_half_up_nearest,
}
use buddy_web_ver.Matching.Identities.{
  SignalIdentity, preference_identities, language_identities, jaccard, exact_overlap,
  major_similarity, same_key, normalized_major,
}
use buddy_web_ver.Matching.Identities.Sets.{jaccard-IsUpTo}
use buddy_web_ver.Matching.Availability.{ToUtc, availability_similarity}
use buddy_web_ver.Matching.Availability.Similarity.{similarity-IsUpTo}
use buddy_web_ver.Matching.Eligibility.{EligibleMatchingPrincipal, matching_pair_is_eligible}
use buddy_web_ver.Matching.Scoring.{
  SafeMatchingProfile, CompatibilityScore, CompatibilityBreakdown, CompatibilitySignalBreakdown,
  profile_breakdown, require_eligible_safe_pair, score_eligible_pair, weighted_breakdown, signal,
  total_points, compatibility_score, weekday, compatibility_weights,
}

IsUpTo-at_most : (n : ℕ) (a : Fraction) → IsUpTo n a → at_most a n ≡ true
unfolding at_most
IsUpTo-at_most n a h = le→leb _ _ h.bounded

abbrev weighted : Fraction → ℕ → CompatibilitySignalBreakdown
weighted a w = record { similarity = a; weight = w; points = times a w }

signal_total : (a : Fraction) (w : ℕ) → IsUpTo 1 a → signal a w ≡ ok (weighted a w)
unfolding signal
signal_total a w h = rw (IsUpTo-at_most 1 a h, fraction_eq_refl (times a w))

exact_overlap-IsUpTo : (xs ys : List SignalIdentity) → IsUpTo 1 (exact_overlap xs ys)
unfolding exact_overlap
exact_overlap-IsUpTo xs ys = ground arith

same_key-IsUpTo : (u : Unicode) (l r : Option Text) → IsUpTo 1 (same_key u l r)
same_key-IsUpTo u none none = omega arith
same_key-IsUpTo u none (some r) = omega arith
same_key-IsUpTo u (some l) none = omega arith
same_key-IsUpTo u (some l) (some r) = ground arith

-- The breakdown that five similarities give.
abbrev pub breakdown_of :
    Fraction → Fraction → Fraction → Fraction → Fraction → CompatibilityBreakdown
breakdown_of a b c d e = record {
  interests = weighted a compatibility_weights.interests;
  activities = weighted b compatibility_weights.activities;
  availability = weighted c compatibility_weights.availability;
  languages = weighted d compatibility_weights.languages;
  major = weighted e compatibility_weights.major;
}

module _ (a b c d e : Fraction) (ha : IsUpTo 1 a) (hb : IsUpTo 1 b) (hc : IsUpTo 1 c)
    (hd : IsUpTo 1 d) (he : IsUpTo 1 e) where
  weighted_total : weighted_breakdown a b c d e ≡ ok (breakdown_of a b c d e)
  unfolding weighted_breakdown
  weighted_total = rw (
    signal_total a 40 ha,
    signal_total b 35 hb,
    signal_total c 15 hc,
    signal_total d 5 hd,
    signal_total e 5 he,
  )

  zero-IsUpTo : IsUpTo 0 zero_fraction
  zero-IsUpTo = omega arith

  total-IsUpTo : IsUpTo 100 (total_points (breakdown_of a b c d e))
  unfolding total_points
  total-IsUpTo =
      +f-IsUpTo 95 5 _ _
        (+f-IsUpTo 90 5 _ _
          (+f-IsUpTo 75 15 _ _
            (+f-IsUpTo 40 35 _ _ (+f-IsUpTo 0 40 _ _ zero-IsUpTo (times-IsUpTo 40 a ha))
              (times-IsUpTo 35 b hb))
            (times-IsUpTo 15 c hc))
          (times-IsUpTo 5 d hd))
        (times-IsUpTo 5 e he)

-- At most 100, and nearest to the exact value.
abbrev pub IsRounded : CompatibilityScore → Type 0
IsRounded s =
    (s.score ≤ 100)
    × (at_most s.precise_score 100 ≡ true)
    × (2 * (s.score * s.precise_score.denominator)
        ≤ 2 * s.precise_score.numerator + s.precise_score.denominator)
    × (2 * s.precise_score.numerator
        < 2 * (s.score * s.precise_score.denominator) + s.precise_score.denominator)

-- A result that is given under a test is the one under the test.
ok_if {ℓ} :
    {A : Type ℓ} (e : Exception) (b : Bool) (x y : A) → (if b then ok x else err e) ≡ ok y → x ≡ y
ok_if e true x y h = ground arith
ok_if e false x y h = cc

require_outcome :
    (a b : EligibleMatchingPrincipal) (p q : SafeMatchingProfile)
    → require_eligible_safe_pair a b p q ≡ (
        if a.profile_id == p.id
          && b.profile_id == q.id
          && type_is a.student_type p.student_type
          && type_is b.student_type q.student_type
          && matching_pair_is_eligible a b
        then ok tt
        else err scoring_error)
unfolding require_eligible_safe_pair
require_outcome a b p q = ground arith

module _ (to_utc : ToUtc) (unicode : Unicode) (p q : SafeMatchingProfile) (week : ℕ) where
  abbrev pub interests_similarity : Fraction
  interests_similarity =
      jaccard (preference_identities unicode p.interests)
        (preference_identities unicode q.interests)

  abbrev pub activities_similarity : Fraction
  activities_similarity =
      jaccard (preference_identities unicode p.activities)
        (preference_identities unicode q.activities)

  abbrev pub languages_similarity : Fraction
  languages_similarity =
      exact_overlap (language_identities unicode p.languages)
        (language_identities unicode q.languages)

  -- The breakdown of two profiles: each similarity with its weight, the points being their product.
  abbrev pub profiles_breakdown : CompatibilityBreakdown
  profiles_breakdown =
      breakdown_of interests_similarity activities_similarity
        (availability_similarity to_utc p.availability q.availability week) languages_similarity
        (major_similarity unicode p.major q.major)

  -- The score of two profiles.
  abbrev pub score_of : CompatibilityScore
  score_of = record {
    precise_score = total_points profiles_breakdown;
    score = round_half_up (total_points profiles_breakdown);
    breakdown = profiles_breakdown;
    reference_week_start = week;
  }

  major-IsUpTo : IsUpTo 1 (major_similarity unicode p.major q.major)
  unfolding major_similarity
  major-IsUpTo =
      same_key-IsUpTo unicode (normalized_major unicode p.major) (normalized_major unicode q.major)

  breakdown_total : profile_breakdown to_utc unicode p q week ≡ ok profiles_breakdown
  unfolding profile_breakdown
  breakdown_total =
      weighted_total _ _ _ _ _ (jaccard-IsUpTo _ _) (jaccard-IsUpTo _ _)
        (similarity-IsUpTo to_utc week p.availability q.availability) (exact_overlap-IsUpTo _ _)
        major-IsUpTo

  profiles-IsUpTo : IsUpTo 100 (total_points profiles_breakdown)
  profiles-IsUpTo =
      total-IsUpTo _ _ _ _ _ (jaccard-IsUpTo _ _) (jaccard-IsUpTo _ _)
        (similarity-IsUpTo to_utc week p.availability q.availability) (exact_overlap-IsUpTo _ _)
        major-IsUpTo

  constructed :
      (weekday week == 0) ≡ true
      → compatibility_score
          (total_points profiles_breakdown)
          (round_half_up (total_points profiles_breakdown))
          profiles_breakdown
          week
        ≡ ok score_of
  unfolding compatibility_score
  constructed h = rw (
    fraction_eq_refl (total_points profiles_breakdown),
    IsUpTo-at_most 100 _ profiles-IsUpTo,
    le→leb _ 100 (round_half_up-le 100 _ profiles-IsUpTo),
    h,
  )

  -- Scoring succeeds exactly on a Monday, for two principals with their own profiles that form an
  -- eligible pair, and then with `score_of`; otherwise it raises `MatchingScoringError`. The checks
  -- of the score's constructors never fail.
  pub score_outcome :
      (a b : EligibleMatchingPrincipal)
      → score_eligible_pair to_utc unicode a b p q week ≡ (
          if weekday week == 0
            && a.profile_id == p.id
            && b.profile_id == q.id
            && type_is a.student_type p.student_type
            && type_is b.student_type q.student_type
            && matching_pair_is_eligible a b
          then ok score_of
          else err scoring_error)
  unfolding score_eligible_pair
  score_outcome a b = rw (require_outcome a b p q, breakdown_total) (ground (arith, constructed))

  nearest : IsRounded score_of
  nearest =
      let (up, down) =
        round_half_up_nearest (total_points profiles_breakdown) profiles-IsUpTo.positive in
      (round_half_up-le 100 _ profiles-IsUpTo, IsUpTo-at_most 100 _ profiles-IsUpTo, up, down)

  scored :
      (a b : EligibleMatchingPrincipal) (s : CompatibilityScore)
      → score_eligible_pair to_utc unicode a b p q week ≡ ok s
      → score_of ≡ s
  scored a b s h = ok_if scoring_error _ score_of s (sym (score_outcome a b) ∙ h)

  -- A score that is given is at most 100, as its exact value is, and it is the whole number nearest
  -- to the exact value, a half rounded up: it exceeds that by at most a half and falls short of it
  -- by less.
  pub score_bounds :
      (a b : EligibleMatchingPrincipal) (s : CompatibilityScore)
      → score_eligible_pair to_utc unicode a b p q week ≡ ok s
      → IsRounded s
  score_bounds a b s h = subst IsRounded (scored a b s h) nearest
