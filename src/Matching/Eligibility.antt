-- ===== src/Matching/Eligibility.antt =====
-- The identities of matching participants and the rule for a pair
-- (`EligibleMatchingPrincipal` and `matching_pair_is_eligible` of
-- apps/api/app/services/matching_eligibility.py).
use buddy_web_ver.Base.{ℕ, ◌≡◌, Bool, not, ◌&&◌, Option, ◌==◌, arith}
use buddy_web_ver.Models.Profile.{StudentType, type_is}

pub record EligibleMatchingPrincipal : Type 0 where
  pub user_id : ℕ
  pub profile_id : ℕ
  pub student_type : StudentType
  pub semester_id : Option ℕ

unfoldable pub matching_pair_is_eligible :
    EligibleMatchingPrincipal → EligibleMatchingPrincipal → Bool
matching_pair_is_eligible current candidate =
    not (current.user_id == candidate.user_id)
    && not (current.profile_id == candidate.profile_id)
    && not (type_is current.student_type candidate.student_type)

pub pair_eligible_comm :
    (a b : EligibleMatchingPrincipal)
    → matching_pair_is_eligible a b ≡ matching_pair_is_eligible b a
unfolding matching_pair_is_eligible
pair_eligible_comm a b = ground arith
