-- ===== src/Matching/Scoring.antt =====
-- The score of an eligible pair (apps/api/app/services/matching_scoring.py). The time zone database
-- and the Unicode tables are parameters.
pub mod Bounds
pub mod Symmetry
use buddy_web_ver.Base.{
  ℕ, ◌+◌, ◌%◌, ◌≤◌, Bool, true, false, not, ◌&&◌, ◌||◌, Option, List, ◌==◌, leb, if◌then◌else◌,
}
use buddy_web_ver.Errors.{
  Exception, value_error, scoring_error, Complaint, Result, ok, err, ◌>>=◌, ◌>>◌, raise_if,
}
use buddy_web_ver.Text.{Text}
use buddy_web_ver.Models.Profile.{StudentType, WeeklyAvailability, type_is}
use buddy_web_ver.Preferences.{Unicode}
use buddy_web_ver.Matching.Fractions.{
  Fraction, zero_fraction, ◌+f◌, times, fraction_eq, at_most, round_half_up,
}
use buddy_web_ver.Matching.Identities.{
  SafeMatchingPreference, SafeMatchingLanguage, preference_identities, language_identities, jaccard,
  exact_overlap, major_similarity,
}
use buddy_web_ver.Matching.Availability.{ToUtc, availability_similarity}
use buddy_web_ver.Matching.Eligibility.{EligibleMatchingPrincipal, matching_pair_is_eligible}

pub record CompatibilityWeights : Type 0 where
  pub interests : ℕ
  pub activities : ℕ
  pub availability : ℕ
  pub languages : ℕ
  pub major : ℕ

abbrev pub compatibility_weights : CompatibilityWeights
compatibility_weights = record {
  interests = 40;
  activities = 35;
  availability = 15;
  languages = 5;
  major = 5;
}

pub record CompatibilitySignalBreakdown : Type 0 where
  pub similarity : Fraction
  pub weight : ℕ
  pub points : Fraction

pub record CompatibilityBreakdown : Type 0 where
  pub interests : CompatibilitySignalBreakdown
  pub activities : CompatibilitySignalBreakdown
  pub availability : CompatibilitySignalBreakdown
  pub languages : CompatibilitySignalBreakdown
  pub major : CompatibilitySignalBreakdown

pub record CompatibilityScore : Type 0 where
  pub precise_score : Fraction
  pub score : ℕ
  pub breakdown : CompatibilityBreakdown
  pub reference_week_start : ℕ

-- A profile, with the fields that scoring reads.
pub record SafeMatchingProfile : Type 0 where
  pub id : ℕ
  pub student_type : StudentType
  pub major : Option Text
  pub interests : List SafeMatchingPreference
  pub languages : List SafeMatchingLanguage
  pub activities : List SafeMatchingPreference
  pub availability : Option WeeklyAvailability

-- `date.weekday()`, by days since a Monday.
abbrev pub weekday : ℕ → ℕ
weekday date = date % 7

-- The constructor with the checks of `__post_init__`.
unfoldable pub signal_breakdown : Fraction → ℕ → Fraction → Result CompatibilitySignalBreakdown
signal_breakdown similarity weight points = do
  raise_if (not (at_most similarity 1)) (value_error Complaint.inconsistent_score)
  raise_if (not (fraction_eq points (times similarity weight)))
      (value_error Complaint.inconsistent_score)
  ok (record { similarity = similarity; weight = weight; points = points })

unfoldable pub signal : Fraction → ℕ → Result CompatibilitySignalBreakdown
unfolding signal_breakdown
signal similarity weight = signal_breakdown similarity weight (times similarity weight)

-- `sum(points, Fraction())` over the five signals.
unfoldable pub total_points : CompatibilityBreakdown → Fraction
total_points b =
    zero_fraction +f b.interests.points +f b.activities.points +f b.availability.points
    +f b.languages.points +f b.major.points

-- The constructor with the checks of `__post_init__`.
unfoldable pub compatibility_score :
    Fraction → ℕ → CompatibilityBreakdown → ℕ → Result CompatibilityScore
compatibility_score precise_score score breakdown reference_week_start = do
  raise_if (not (fraction_eq precise_score (total_points breakdown)))
      (value_error Complaint.inconsistent_score)
  raise_if (not (at_most precise_score 100) || not (leb score 100))
      (value_error Complaint.inconsistent_score)
  raise_if (not (weekday reference_week_start == 0)) (value_error Complaint.inconsistent_score)
  ok (record {
    precise_score = precise_score;
    score = score;
    breakdown = breakdown;
    reference_week_start = reference_week_start;
  })

unfoldable pub require_eligible_safe_pair :
    EligibleMatchingPrincipal
    → EligibleMatchingPrincipal
    → SafeMatchingProfile
    → SafeMatchingProfile
    → Result (Unit {0})
require_eligible_safe_pair current candidate current_profile candidate_profile =
    let principals_match_profiles =
      current.profile_id == current_profile.id
      && candidate.profile_id == candidate_profile.id
      && type_is current.student_type current_profile.student_type
      && type_is candidate.student_type candidate_profile.student_type in
    raise_if (not principals_match_profiles || not (matching_pair_is_eligible current candidate))
      scoring_error

-- The five signals, in the order in which they are formed, from their similarities.
unfoldable pub weighted_breakdown :
    Fraction → Fraction → Fraction → Fraction → Fraction → Result CompatibilityBreakdown
weighted_breakdown interests_similarity activities_similarity availability_similarity'
      languages_similarity major_similarity' =
    do
      interests ← signal interests_similarity compatibility_weights.interests
      activities ← signal activities_similarity compatibility_weights.activities
      availability ← signal availability_similarity' compatibility_weights.availability
      languages ← signal languages_similarity compatibility_weights.languages
      major ← signal major_similarity' compatibility_weights.major
      ok (record {
        interests = interests;
        activities = activities;
        availability = availability;
        languages = languages;
        major = major;
      })

module _ (to_utc : ToUtc) (unicode : Unicode) where
  unfoldable pub profile_breakdown :
      SafeMatchingProfile → SafeMatchingProfile → ℕ → Result CompatibilityBreakdown
  profile_breakdown current candidate week =
      weighted_breakdown
        (jaccard (preference_identities unicode current.interests)
          (preference_identities unicode candidate.interests))
        (jaccard (preference_identities unicode current.activities)
          (preference_identities unicode candidate.activities))
        (availability_similarity to_utc current.availability candidate.availability week)
        (exact_overlap (language_identities unicode current.languages)
          (language_identities unicode candidate.languages))
        (major_similarity unicode current.major candidate.major)

  unfoldable pub score_eligible_pair :
      EligibleMatchingPrincipal
      → EligibleMatchingPrincipal
      → SafeMatchingProfile
      → SafeMatchingProfile
      → ℕ
      → Result CompatibilityScore
  score_eligible_pair current candidate current_profile candidate_profile week = do
    raise_if (not (weekday week == 0)) scoring_error
    require_eligible_safe_pair current candidate current_profile candidate_profile
    breakdown ← profile_breakdown current_profile candidate_profile week
    let precise_score = total_points breakdown
    compatibility_score precise_score (round_half_up precise_score) breakdown week
