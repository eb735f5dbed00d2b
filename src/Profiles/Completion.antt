-- ===== src/Profiles/Completion.antt =====
-- Readiness of a profile, derived from persisted state
-- (`derive_profile_completion` of apps/api/app/services/profile_completion.py).
use buddy_web_ver.Base.{
  ℕ, ◌-◌, ◌*◌, ◌≤◌, ◌≡◌, ◌↔◌, Bool, true, false, not, ◌&&◌, Option, none, some, List, [], ◌∷◌, ◌++◌,
  leb, ◌==◌, if◌then◌else◌, is_none, is_some, length, arith,
}
use buddy_web_ver.Errors.{
  MatchingIneligibilityReason, profile_incomplete, account_inactive, account_deleted,
  email_verification_required, matching_opt_in_required,
}
use buddy_web_ver.Text.{Text, strip}
use buddy_web_ver.Models.User.{User, user, admin, is_user_role}
use buddy_web_ver.Models.Profile.{StudentProfile}

pub data ProfileMissingField : Type 0 where
  full_name student_type avatar interests languages : ProfileMissingField

pub data ProfileCompletionStatus : Type 0 where
  incomplete complete : ProfileCompletionStatus

pub record ProfileCompletion : Type 0 where
  pub status : ProfileCompletionStatus
  pub percentage : ℕ
  pub missing_fields : List ProfileMissingField
  pub matching_eligible : Bool
  pub reasons : List MatchingIneligibilityReason

-- `if test: values.append(value)`
abbrev pub append_if {ℓ} : {A : Type ℓ} → Bool → A → List A → List A
append_if true x xs = xs ++ (x ∷ [])
append_if false x xs = xs

abbrev pub full_name_length : Option Text → ℕ
full_name_length none = 0
full_name_length (some name) = length (strip name)

abbrev pub within : ℕ → ℕ → ℕ → Bool
within least n most = leb least n && leb n most

unfoldable pub missing_fields_of : StudentProfile → ℕ → ℕ → ℕ → List ProfileMissingField
missing_fields_of profile ready_avatar_count valid_interest_count valid_language_count =
    append_if (not (within 1 valid_language_count 10)) languages (
      append_if (not (within 1 valid_interest_count 20)) interests (
        append_if (not (ready_avatar_count == 1)) avatar (
          append_if (is_none profile.student_type) student_type
            (append_if (not (within 1 (full_name_length profile.full_name) 120)) full_name []))))

abbrev pub is_complete : List ProfileMissingField → Bool
is_complete [] = true
is_complete (x ∷ xs) = false

unfoldable pub reasons_of : User → StudentProfile → Bool → List MatchingIneligibilityReason
reasons_of owner profile completed =
    append_if (not profile.matching_opt_in) matching_opt_in_required (
      append_if (is_user_role owner.role && is_none owner.email_verified_at)
        email_verification_required
        (append_if (is_some owner.deleted_at) account_deleted (
          append_if (not owner.is_active) account_inactive
            (append_if (not completed) profile_incomplete []))))

unfoldable pub derive_profile_completion : User → StudentProfile → ℕ → ℕ → ℕ → ProfileCompletion
derive_profile_completion owner profile ready_avatar_count valid_interest_count
      valid_language_count =
    let missing =
      missing_fields_of profile ready_avatar_count valid_interest_count valid_language_count in
    let completed = is_complete missing in
    let account_is_eligible =
      is_user_role owner.role
      && owner.is_active
      && is_none owner.deleted_at
      && is_some owner.email_verified_at in
    record {
      status = if completed then complete else incomplete;
      percentage = (5 - length missing) * 20;
      missing_fields = missing;
      matching_eligible = completed && account_is_eligible && profile.matching_opt_in;
      reasons = reasons_of owner profile completed;
    }

verdict :
    (missing : List ProfileMissingField)
    → let status = if is_complete missing then complete else incomplete in
      ((status ≡ complete) ↔ ((5 - length missing) * 20 ≡ 100))
      × ((status ≡ complete) ↔ (missing ≡ []))
      × ((5 - length missing) * 20 ≤ 100)
verdict [] = (ground arith, ground arith, omega arith)
verdict (x ∷ xs) = (ground arith, ground arith, omega arith)

reasons_explained :
    (owner : User) (profile : StudentProfile) (completed : Bool)
    → owner.role ≡ user
    → (completed
          && (is_user_role owner.role
              && owner.is_active
              && is_none owner.deleted_at
              && is_some owner.email_verified_at)
          && profile.matching_opt_in
        ≡ true)
      ↔ (reasons_of owner profile completed ≡ [])
unfolding reasons_of
reasons_explained owner profile completed h = (λ e. ground arith, λ e. ground arith)

-- The reasons explain the verdict: an account of a USER may be matched exactly if no reason is given,
-- and an ADMIN never; the profile is complete exactly at 100 percent, exactly if no field is missing;
-- the percentage is at most 100.
pub completion_explained :
    (owner : User) (profile : StudentProfile) (a i l : ℕ)
    → let c = derive_profile_completion owner profile a i l in
      (owner.role ≡ user → (c.matching_eligible ≡ true) ↔ (c.reasons ≡ []))
      × (owner.role ≡ admin → c.matching_eligible ≡ false)
      × ((c.status ≡ complete) ↔ (c.percentage ≡ 100))
      × ((c.status ≡ complete) ↔ (c.missing_fields ≡ []))
      × (c.percentage ≤ 100)
unfolding derive_profile_completion
completion_explained owner profile a i l =
    let missing = missing_fields_of profile a i l in
    let (percent, fields, most) = verdict missing in
    (
      reasons_explained owner profile (is_complete missing),
      λ e. ground arith,
      percent,
      fields,
      most,
    )

-- A profile that is complete has a student type.
completed-student_type :
    (profile : StudentProfile) (a i l : ℕ)
    → is_complete (missing_fields_of profile a i l) ≡ true
    → is_some profile.student_type ≡ true
unfolding missing_fields_of
completed-student_type profile a i l h = ground arith

pub eligible-student_type :
    (owner : User) (profile : StudentProfile) (a i l : ℕ)
    → (derive_profile_completion owner profile a i l).matching_eligible ≡ true
    → is_some profile.student_type ≡ true
unfolding derive_profile_completion
eligible-student_type owner profile a i l h = completed-student_type profile a i l (ground arith)
