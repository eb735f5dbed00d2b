-- ===== src/Tests/Recommendations.antt =====
-- A page of recommendations, and the theorem about paging applied to it.
use buddy_web_ver.Base.{
  ℕ, suc, ◌+◌, ◌*◌, ◌≡◌, refl, false, none, some, List, [], ◌∷◌, drop, length, take,
}
use buddy_web_ver.Errors.{ok}
use buddy_web_ver.Text.{codes, btrim, strip, collapse_whitespace, is_space, uuid_text}
use buddy_web_ver.Models.Profile.{vietnamese, international}
use buddy_web_ver.Preferences.{
  normalize_preference_key, normalize_preference_identity, contains_unsafe_control,
}
use buddy_web_ver.Matching.Fractions.{
  zero_fraction, one_fraction, ◌+f◌, times, at_most, fraction_eq, fraction_le, round_half_up,
}
use buddy_web_ver.Matching.Identities.{
  normalized_custom_key, preference_identities, language_identities, normalized_major,
  major_similarity, jaccard, exact_overlap,
}
use buddy_web_ver.Matching.Intervals.{
  merge_from, merge_sorted, duration_microseconds, intersection_microseconds,
}
use buddy_web_ver.Matching.Availability.{
  ToUtc, merged_utc_intervals, availability_similarity, slot_intervals, local_minute,
}
use buddy_web_ver.Matching.Eligibility.{EligibleMatchingPrincipal, matching_pair_is_eligible}
use buddy_web_ver.Matching.Projection.{en, project_safe_profiles}
use buddy_web_ver.Matching.Candidates.{
  is_candidate, eligible_candidates, load_matching_scoring_profiles,
}
use buddy_web_ver.Matching.Scoring.{
  CompatibilitySignalBreakdown, signal_breakdown, signal, total_points, compatibility_score,
  require_eligible_safe_pair, weighted_breakdown, profile_breakdown, score_eligible_pair,
}
use buddy_web_ver.Matching.Recommendations.{
  MatchingRecommendation, RecommendationPage, ranks_before, page_count, recommendation_page,
  ranking, list_ranked_matching_recommendations,
}
use buddy_web_ver.Matching.Recommendations.Paging.{IsRanked, pieces, pages_join}
use buddy_web_ver.Tests.Data.{ascii}
use buddy_web_ver.Tests.Sending.{school}

abbrev one_hour_ahead : ToUtc
one_hour_ahead zone minute = minute + 60

abbrev first_principal : EligibleMatchingPrincipal
first_principal = record {
  user_id = 1;
  profile_id = 11;
  student_type = vietnamese;
  semester_id = some 5;
}

-- A signal that agrees in nothing, and one that agrees in everything.
abbrev nothing : ℕ → CompatibilitySignalBreakdown
nothing weight = record { similarity = zero_fraction; weight = weight; points = zero_fraction }

abbrev everything : ℕ → CompatibilitySignalBreakdown
everything weight = record {
  similarity = one_fraction;
  weight = weight;
  points = record { numerator = weight; denominator = 1 };
}

abbrev recommended : MatchingRecommendation
recommended = record {
  profile = record {
    id = 12;
    student_type = international;
    major = none;
    interests = record { id = some 31; label = codes "Art"; is_custom = false } ∷ [];
    languages = record { code = some (codes "de"); label = codes "German"; is_custom = false } ∷ [];
    activities = [];
    availability = none;
  };
  score = record {
    precise_score = record { numerator = 45; denominator = 1 };
    score = 45;
    breakdown = record {
      interests = everything 40;
      activities = nothing 35;
      availability = nothing 15;
      languages = everything 5;
      major = nothing 5;
    };
    reference_week_start = 7;
  };
}

abbrev one_page : RecommendationPage
one_page = record {
  items = recommended ∷ [];
  page = 1;
  page_size = 20;
  total = 1;
  total_pages = 1;
  reference_week_start = 7;
}

page_runs :
    list_ranked_matching_recommendations one_hour_ahead ascii first_principal en 1 20 7 school
    ≡ ok one_page
unfolding list_ranked_matching_recommendations ranking recommendation_page page_count ranks_before
    load_matching_scoring_profiles eligible_candidates is_candidate btrim strip collapse_whitespace
    is_space normalize_preference_key normalize_preference_identity contains_unsafe_control
    project_safe_profiles matching_pair_is_eligible score_eligible_pair merged_utc_intervals
    availability_similarity ◌+f◌ times at_most fraction_eq fraction_le round_half_up
    normalized_custom_key preference_identities language_identities normalized_major
    major_similarity jaccard exact_overlap merge_from merge_sorted duration_microseconds
    intersection_microseconds signal_breakdown signal total_points compatibility_score
    require_eligible_safe_pair weighted_breakdown profile_breakdown slot_intervals local_minute
    uuid_text
page_runs = refl

pages_join_example :
    (ranked : List MatchingRecommendation) × IsRanked ranks_before ranked
    × ((k : ℕ)
        → (q : RecommendationPage) × (list_ranked_matching_recommendations one_hour_ahead ascii
              first_principal en
              (suc k)
              20
              7
              school
            ≡ ok q)
          × (q.items ≡ take 20 (drop (k * 20) ranked)))
    × (pieces 1 20 ranked ≡ ranked)
    × (1 ≡ length ranked)
pages_join_example =
    pages_join one_hour_ahead ascii first_principal en 7 school 1 20 one_page page_runs
