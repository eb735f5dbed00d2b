-- ===== src/Profiles/Access.antt =====
-- Who may use Buddy features, and who may be matched (`get_verified_buddy_principal` of
-- apps/api/app/services/buddy_access.py and `get_eligible_matching_principal` of
-- apps/api/app/services/matching_eligibility.py).
use buddy_web_ver.Base.{
  ℕ, ◌≡◌, refl, true, false, not, ◌&&◌, ◌||◌, Option, none, some, List, [], ◌∷◌, ◌==◌, is_none,
  is_some, scalar, arith, Option-cases, inl, inr,
}
use buddy_web_ver.Errors.{
  MatchingIneligibilityReason, email_verification_required, capability_error, Result, ok, err,
  ◌>>=◌, ◌>>◌, raise_if, or_raise, Result-cases, ok_inv,
}
use buddy_web_ver.Models.User.{User, is_user_role}
use buddy_web_ver.Models.Profile.{StudentProfile, StudentType}
use buddy_web_ver.Preferences.{Unicode}
use buddy_web_ver.Db.{Db}
use buddy_web_ver.Profiles.Completion.{ProfileCompletion, eligible-student_type}
use buddy_web_ver.Profiles.Counts.{
  get_profile_completion, count_valid_interests, count_valid_languages, count_ready_avatars,
}
use buddy_web_ver.Matching.Eligibility.{EligibleMatchingPrincipal}

pub record VerifiedBuddyPrincipal : Type 0 where
  pub owner : User
  pub profile : StudentProfile

unfoldable pub get_verified_buddy_principal : User → Db → Result VerifiedBuddyPrincipal
get_verified_buddy_principal current_user db = do
  raise_if
      (not (is_user_role current_user.role)
        || not current_user.is_active
        || is_some current_user.deleted_at)
      (capability_error none)
  raise_if (is_none current_user.email_verified_at)
      (capability_error (some email_verification_required))
  profile ←
      or_raise (scalar (λ p. p.user_id == current_user.id && is_none p.deleted_at) db.profiles)
        (capability_error none)
  ok (record { owner = current_user; profile = profile })

-- `reasons[0] if reasons else None`
abbrev pub first_reason : List MatchingIneligibilityReason → Option MatchingIneligibilityReason
first_reason [] = none
first_reason (reason ∷ reasons) = some reason

module _ (unicode : Unicode) where
  unfoldable pub get_eligible_matching_principal :
      VerifiedBuddyPrincipal → Db → Result EligibleMatchingPrincipal
  get_eligible_matching_principal principal db = do
    semester ← or_raise principal.owner.semester_id (capability_error none)
    completion ← get_profile_completion unicode principal.owner principal.profile db
    raise_if (not completion.matching_eligible) (capability_error (first_reason completion.reasons))
    student_type ← or_raise principal.profile.student_type (capability_error none)
    ok (record {
      user_id = principal.owner.id;
      profile_id = principal.profile.id;
      student_type = student_type;
      semester_id = some semester;
    })

completion_type :
    (unicode : Unicode) (owner : User) (profile : StudentProfile) (db : Db) (c : ProfileCompletion)
    → get_profile_completion unicode owner profile db ≡ ok c
    → c.matching_eligible ≡ true
    → is_some profile.student_type ≡ true
unfolding get_profile_completion
completion_type unicode owner profile db c h e =
    elim (Result-cases (count_valid_interests unicode profile.id db)) [
      | inl counted ↦
          let (i, is_i) = counted in
          elim (Result-cases (count_valid_languages unicode profile.id db)) [
            | inl counted' ↦
                let (l, is_l) = counted' in
                let derived = rw (is_i, is_l) at h in
                eligible-student_type owner profile (count_ready_avatars profile.id db) i l
                  (ground arith)
            | inr failed ↦ let wrong = rw (is_i, failed.1) at h in ground arith
          ]
      | inr failed ↦ let wrong = rw failed.1 at h in ground arith
    ]

-- For an owner in a semester whose completion could be derived, the verdict of completion decides:
-- with it the principal is made, of the owner, the profile, its student type and the semester, so
-- that the last check for a student type never fails; without it the refusal carries the first
-- reason.
pub principal_outcome :
    (unicode : Unicode) (p : VerifiedBuddyPrincipal) (db : Db) (semester : ℕ)
    (c : ProfileCompletion)
    → p.owner.semester_id ≡ some semester
    → get_profile_completion unicode p.owner p.profile db ≡ ok c
    → (c.matching_eligible ≡ true
        → (kind : StudentType) × (p.profile.student_type ≡ some kind)
          × (get_eligible_matching_principal unicode p db
              ≡ ok (record {
                user_id = p.owner.id;
                profile_id = p.profile.id;
                student_type = kind;
                semester_id = some semester;
              })))
      × (c.matching_eligible ≡ false
          → get_eligible_matching_principal unicode p db
            ≡ err (capability_error (first_reason c.reasons)))
unfolding get_eligible_matching_principal
principal_outcome unicode p db semester c s e = (
  λ h.
      let typed = completion_type unicode p.owner p.profile db c e h in
      elim (Option-cases p.profile.student_type) [
        | inl none_given ↦ let wrong = rw none_given at typed in cc
        | inr given ↦ let (kind, is_kind) = given in (kind, is_kind, rw (e, s, h, is_kind) refl)
      ],
  λ h. rw (e, s, h) refl,
)

pub principal_user :
    (unicode : Unicode) (p : VerifiedBuddyPrincipal) (db : Db) (e : EligibleMatchingPrincipal)
    → get_eligible_matching_principal unicode p db ≡ ok e
    → e.user_id ≡ p.owner.id
unfolding get_eligible_matching_principal
principal_user unicode p db e h =
    let (semester, _, h1) = ok_inv (or_raise p.owner.semester_id (capability_error none)) _ e h in
    let (c, _, h2) = ok_inv (get_profile_completion unicode p.owner p.profile db) _ e h1 in
    ground arith
