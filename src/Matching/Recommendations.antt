-- ===== src/Matching/Recommendations.antt =====
-- Ranked recommendations (`list_ranked_matching_recommendations` of
-- apps/api/app/services/matching_recommendations.py). An item keeps the exact score, of which the
-- response shows numbers rounded to six decimals.
pub mod Paging
use buddy_web_ver.Base.{
  ℕ, ◌+◌, ◌-◌, ◌*◌, ◌/◌, Bool, not, ◌&&◌, ◌||◌, Option, List, [], ◌∷◌, ltb, leb, ◌==◌,
  if◌then◌else◌, drop, length, sort_by, take,
}
use buddy_web_ver.Errors.{
  value_error, Complaint, recommendation_state, recommendation_capacity, Result, ok, err, or_raise,
  raise_if, ◌>>=◌, ◌>>◌,
}
use buddy_web_ver.Preferences.{Unicode}
use buddy_web_ver.Db.{Db}
use buddy_web_ver.Matching.Fractions.{fraction_eq, fraction_le}
use buddy_web_ver.Matching.Availability.{ToUtc}
use buddy_web_ver.Matching.Eligibility.{EligibleMatchingPrincipal}
use buddy_web_ver.Matching.Projection.{CatalogLocale}
use buddy_web_ver.Matching.Candidates.{EligibleMatchingCandidate, load_matching_scoring_profiles}
use buddy_web_ver.Matching.Scoring.{
  SafeMatchingProfile, CompatibilityScore, weekday, score_eligible_pair,
}

abbrev pub max_recommendation_page_size : ℕ
max_recommendation_page_size = 50

abbrev pub max_recommendation_candidates : ℕ
max_recommendation_candidates = 500

pub record MatchingRecommendation : Type 0 where
  pub profile : SafeMatchingProfile
  pub score : CompatibilityScore

pub record RecommendationPage : Type 0 where
  pub items : List MatchingRecommendation
  pub page : ℕ
  pub page_size : ℕ
  pub total : ℕ
  pub total_pages : ℕ
  pub reference_week_start : ℕ

-- `key=lambda item: (-item[0].precise_score, item[1].id.int)`
unfoldable pub ranks_before : MatchingRecommendation → MatchingRecommendation → Bool
ranks_before r other =
    not (fraction_le r.score.precise_score other.score.precise_score)
    || (fraction_eq r.score.precise_score other.score.precise_score
        && leb r.profile.id other.profile.id)

-- `ceil(total / page_size) if total else 0`
unfoldable pub page_count : ℕ → ℕ → ℕ
page_count total page_size = (total + page_size - 1) / page_size

unfoldable pub recommendation_page : ℕ → ℕ → ℕ → List MatchingRecommendation → RecommendationPage
recommendation_page page page_size week scored = record {
  items = take page_size (drop ((page - 1) * page_size) scored);
  page = page;
  page_size = page_size;
  total = length scored;
  total_pages = page_count (length scored) page_size;
  reference_week_start = week;
}

module _ (to_utc : ToUtc) (unicode : Unicode) (current : EligibleMatchingPrincipal) where
  abbrev pub score_all :
      SafeMatchingProfile
      → ℕ
      → List EligibleMatchingCandidate
      → Result (List MatchingRecommendation)
  score_all current_profile week [] = ok []
  score_all current_profile week (c ∷ cs) = do
    score ← score_eligible_pair to_utc unicode current c.principal current_profile c.profile week
    rest ← score_all current_profile week cs
    ok (record { profile = c.profile; score = score } ∷ rest)

  -- The ranking that is cut into pages.
  unfoldable pub ranking : CatalogLocale → ℕ → Db → Result (List MatchingRecommendation)
  ranking locale week db = do
    (found, candidates) ←
        load_matching_scoring_profiles current locale (max_recommendation_candidates + 1) db
    current_profile ← or_raise found recommendation_state
    raise_if (ltb max_recommendation_candidates (length candidates)) recommendation_capacity
    scored ← score_all current_profile week candidates
    ok (sort_by ranks_before scored)

  unfoldable pub list_ranked_matching_recommendations :
      CatalogLocale → ℕ → ℕ → ℕ → Db → Result RecommendationPage
  list_ranked_matching_recommendations locale page page_size week db = do
    raise_if (ltb page 1) (value_error Complaint.page_not_positive)
    raise_if (not (leb 1 page_size && leb page_size max_recommendation_page_size))
        (value_error Complaint.page_size_out_of_range)
    raise_if (not (weekday week == 0)) (value_error Complaint.week_not_monday)
    ranked ← ranking locale week db
    ok (recommendation_page page page_size week ranked)
