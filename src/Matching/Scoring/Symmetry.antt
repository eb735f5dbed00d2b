-- ===== src/Matching/Scoring/Symmetry.antt =====
-- The score of a pair does not depend on who looks at whom.
use buddy_web_ver.Base.{ℕ, ◌≡◌, refl, Option, none, some, arith, text_eq, [], ◌∷◌}
use buddy_web_ver.Text.{Text}
use buddy_web_ver.Preferences.{Unicode}
use buddy_web_ver.Matching.Identities.{major_similarity, same_key, normalized_major}
use buddy_web_ver.Matching.Identities.Sets.{
  preference_identities-IsDistinct, language_identities-IsDistinct, jaccard_comm,
  exact_overlap_comm,
}
use buddy_web_ver.Matching.Availability.{ToUtc}
use buddy_web_ver.Matching.Availability.Similarity.{similarity_comm}
use buddy_web_ver.Matching.Eligibility.{EligibleMatchingPrincipal, pair_eligible_comm}
use buddy_web_ver.Matching.Scoring.{
  SafeMatchingProfile, profile_breakdown, require_eligible_safe_pair, score_eligible_pair,
}

text_eq_comm : (xs ys : Text) → text_eq xs ys ≡ text_eq ys xs
text_eq_comm [] [] = refl
text_eq_comm [] (y ∷ ys) = refl
text_eq_comm (x ∷ xs) [] = refl
text_eq_comm (x ∷ xs) (y ∷ ys) = ground (arith, text_eq_comm xs ys)

require_pair_comm :
    (a b : EligibleMatchingPrincipal) (p q : SafeMatchingProfile)
    → require_eligible_safe_pair a b p q ≡ require_eligible_safe_pair b a q p
unfolding require_eligible_safe_pair
require_pair_comm a b p q = ground (arith, pair_eligible_comm a b)

module _ (to_utc : ToUtc) (unicode : Unicode) where
  same_key_comm : (l r : Option Text) → same_key unicode l r ≡ same_key unicode r l
  same_key_comm none none = refl
  same_key_comm none (some r) = refl
  same_key_comm (some l) none = refl
  same_key_comm (some l) (some r) = rw (text_eq_comm l r)

  breakdown_comm :
      (p q : SafeMatchingProfile) (week : ℕ)
      → profile_breakdown to_utc unicode p q week ≡ profile_breakdown to_utc unicode q p week
  unfolding profile_breakdown major_similarity
  breakdown_comm p q week = rw (
    jaccard_comm _ _ (preference_identities-IsDistinct unicode p.interests)
        (preference_identities-IsDistinct unicode q.interests),
    jaccard_comm _ _ (preference_identities-IsDistinct unicode p.activities)
        (preference_identities-IsDistinct unicode q.activities),
    similarity_comm to_utc week p.availability q.availability,
    exact_overlap_comm _ _ (language_identities-IsDistinct unicode p.languages)
        (language_identities-IsDistinct unicode q.languages),
    same_key_comm (normalized_major unicode p.major) (normalized_major unicode q.major),
  )

  -- Scoring a pair from either side gives the same result: the same exact and displayed score with
  -- the same breakdown, or the same refusal.
  pub score_comm :
      (a b : EligibleMatchingPrincipal) (p q : SafeMatchingProfile) (week : ℕ)
      → score_eligible_pair to_utc unicode a b p q week
        ≡ score_eligible_pair to_utc unicode b a q p week
  unfolding score_eligible_pair
  score_comm a b p q week = rw (require_pair_comm a b p q, breakdown_comm p q week)
