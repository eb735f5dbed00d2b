-- ===== src/Tests/Matching.antt =====
-- The scoring theorems at concrete profiles, with Unicode tables and time zones for ASCII letters
-- and fixed offsets, and runs of the scores.
use buddy_web_ver.Base.{
  ℕ, ◌-◌, ◌*◌, ◌≡◌, refl, true, false, ◌&&◌, ◌||◌, none, some, List, [], ◌∷◌, ◌==◌, arith,
  if◌then◌else◌,
}
use buddy_web_ver.Errors.{ok, err, scoring_error}
use buddy_web_ver.Time.{hour, day}
use buddy_web_ver.Text.{Text, codes, collapse_whitespace, is_space}
use buddy_web_ver.Models.Profile.{WeeklyAvailability, vietnamese, international, type_is}
use buddy_web_ver.Preferences.{
  PreferenceIdentity, contains_unsafe_control, normalize_preference_identity,
}
use buddy_web_ver.Matching.Fractions.{round_half_up}
use buddy_web_ver.Matching.Intervals.{UtcInterval}
use buddy_web_ver.Matching.Intervals.Measure.{covered, count, EndsBy}
use buddy_web_ver.Matching.Availability.{
  ToUtc, raw_intervals, availability_similarity, slot_intervals, local_minute,
}
use buddy_web_ver.Matching.Availability.Similarity.{share, similarity_measure}
use buddy_web_ver.Matching.Eligibility.{EligibleMatchingPrincipal, matching_pair_is_eligible}
use buddy_web_ver.Matching.Scoring.{SafeMatchingProfile, score_eligible_pair, weekday}
use buddy_web_ver.Matching.Scoring.Bounds.{score_of, score_outcome, score_bounds, IsRounded}
use buddy_web_ver.Tests.Data.{ascii}
use buddy_web_ver.Matching.Scoring.Symmetry.{score_comm}

-- Every zone is one hour ahead of UTC.
abbrev one_hour_ahead : ToUtc
one_hour_ahead zone t = t - hour

-- Preferences.
abbrev board_games : Text
board_games = codes "  Board  Games "

abbrev board_games_identity : PreferenceIdentity
board_games_identity = record {
  display_label = codes "Board Games";
  normalized_key = codes "board games";
}

board_games_accepted : normalize_preference_identity ascii board_games ≡ ok board_games_identity
unfolding normalize_preference_identity collapse_whitespace is_space contains_unsafe_control
board_games_accepted = refl

abbrev left_chain : List UtcInterval
left_chain = (1, 4) ∷ (5, 9) ∷ []

abbrev right_chain : List UtcInterval
right_chain = (3, 6) ∷ []

-- Rounding.
round_half_up_runs : round_half_up (record { numerator = 175; denominator = 2 }) ≡ 88
unfolding round_half_up
round_half_up_runs = refl

-- Two profiles.
abbrev afternoon : WeeklyAvailability
afternoon = record {
  timezone = codes "Europe/Berlin";
  slots = record { weekday = 2; start_minute = 840; end_minute = 1440 } ∷ [];
}

abbrev evening : WeeklyAvailability
evening = record {
  timezone = codes "Europe/Berlin";
  slots = record { weekday = 2; start_minute = 1140; end_minute = 1440 } ∷ [];
}

abbrev first_profile : SafeMatchingProfile
first_profile = record {
  id = 11;
  student_type = vietnamese;
  major = some (codes "Law");
  interests = record { id = none; label = board_games; is_custom = true } ∷ [];
  languages = record { code = some (codes "DE"); label = codes "German"; is_custom = false } ∷ [];
  activities = [];
  availability = some afternoon;
}

abbrev second_profile : SafeMatchingProfile
second_profile = record {
  id = 12;
  student_type = international;
  major = some (codes "law ");
  interests = record { id = none; label = codes "board games"; is_custom = true } ∷ [];
  languages = record { code = some (codes "de"); label = codes "German"; is_custom = false } ∷ [];
  activities = [];
  availability = some evening;
}

abbrev first_principal : EligibleMatchingPrincipal
first_principal = record {
  user_id = 1;
  profile_id = 11;
  student_type = vietnamese;
  semester_id = some 1;
}

abbrev second_principal : EligibleMatchingPrincipal
second_principal = record {
  user_id = 2;
  profile_id = 12;
  student_type = international;
  semester_id = some 1;
}

-- The end of the two weeks, which is the end of Tuesday in UTC.
abbrev tuesday_ends : ℕ
tuesday_ends = 2 * day

afternoon_ends : EndsBy tuesday_ends (raw_intervals one_hour_ahead (some afternoon) 0)
unfolding slot_intervals local_minute
afternoon_ends = (omega arith, tt)

evening_ends : EndsBy tuesday_ends (raw_intervals one_hour_ahead (some evening) 0)
unfolding slot_intervals local_minute
evening_ends = (omega arith, tt)

similarity_measure_example :
    let in_afternoon = covered (raw_intervals one_hour_ahead (some afternoon) 0) in
    let in_evening = covered (raw_intervals one_hour_ahead (some evening) 0) in
    availability_similarity one_hour_ahead (some afternoon) (some evening) 0
    ≡ share
        (count tuesday_ends (λ t. in_afternoon t && in_evening t))
        (count tuesday_ends (λ t. in_afternoon t || in_evening t))
similarity_measure_example =
    similarity_measure one_hour_ahead 0 tuesday_ends (some afternoon) (some evening) afternoon_ends
      evening_ends

score_outcome_example :
    score_eligible_pair one_hour_ahead ascii first_principal second_principal first_profile
      second_profile 7
    ≡ (if weekday 7 == 0
          && first_principal.profile_id == first_profile.id
          && second_principal.profile_id == second_profile.id
          && type_is first_principal.student_type first_profile.student_type
          && type_is second_principal.student_type second_profile.student_type
          && matching_pair_is_eligible first_principal second_principal
        then ok (score_of one_hour_ahead ascii first_profile second_profile 7)
        else err scoring_error)
score_outcome_example =
    score_outcome one_hour_ahead ascii first_profile second_profile 7 first_principal
      second_principal

score_comm_example :
    score_eligible_pair one_hour_ahead ascii first_principal second_principal first_profile
      second_profile 7
    ≡ score_eligible_pair one_hour_ahead ascii second_principal first_principal second_profile
        first_profile 7
score_comm_example =
    score_comm one_hour_ahead ascii first_principal second_principal first_profile second_profile 7

score_bounds_example : IsRounded (score_of one_hour_ahead ascii first_profile second_profile 7)
unfolding matching_pair_is_eligible
score_bounds_example =
    score_bounds one_hour_ahead ascii first_profile second_profile 7 first_principal
      second_principal (score_of one_hour_ahead ascii first_profile second_profile 7)
      score_outcome_example
