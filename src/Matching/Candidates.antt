-- ===== src/Matching/Candidates.antt =====
-- The pool of candidates (`_eligible_candidate_conditions`, `eligible_candidate_statement`,
-- `list_eligible_matching_profiles`, `load_matching_scoring_profiles` and
-- `get_eligible_candidate_avatar` of apps/api/app/services/matching_eligibility.py).
use buddy_web_ver.Base.{
  ℕ, ◌+◌, Bool, true, false, not, ◌&&◌, ◌||◌, Option, none, some, List, [], ◌∷◌, ltb, leb, ◌==◌,
  if◌then◌else◌, is_none, is_some, any, length, scalar, select, sort_by, take, ◌++◌,
}
use buddy_web_ver.Errors.{
  value_error, Complaint, runtime_error, Result, ok, err, raise_if, ◌>>=◌, ◌>>◌,
}
use buddy_web_ver.Text.{Text, btrim}
use buddy_web_ver.Models.User.{User, is_user_role}
use buddy_web_ver.Models.Profile.{StudentProfile, ProfilePhoto}
use buddy_web_ver.Models.Match.{BuddyMatch}
use buddy_web_ver.Models.Catalog.{PreferenceKind, interest, language}
use buddy_web_ver.Db.{Db}
use buddy_web_ver.Matching.Scoring.{SafeMatchingProfile}
use buddy_web_ver.Matching.Eligibility.{EligibleMatchingPrincipal}
use buddy_web_ver.Matching.Projection.{
  CatalogLocale, join_avatars, selected_items, spoken_items, customs, has_type,
  project_safe_profiles,
}

pub record EligibleMatchingCandidate : Type 0 where
  pub principal : EligibleMatchingPrincipal
  pub profile : SafeMatchingProfile

abbrev pub custom_count : PreferenceKind → ℕ → Db → ℕ
custom_count kind profile_id db = length (customs kind profile_id db.custom_preferences)

abbrev pub interest_count : ℕ → Db → ℕ
interest_count profile_id db =
    length (selected_items profile_id db.interests db.profile_interests)
    + custom_count interest profile_id db

abbrev pub language_count : ℕ → Db → ℕ
language_count profile_id db =
    length (spoken_items profile_id db.languages db.profile_languages)
    + custom_count language profile_id db

-- The photos that the conditions count, and that the statement joins.
abbrev pub is_ready_avatar : ℕ → ProfilePhoto → Bool
is_ready_avatar profile_id photo =
    photo.profile_id == profile_id && photo.is_avatar && photo.is_ready && is_none photo.deleted_at

abbrev pub are_matched : ℕ → ℕ → BuddyMatch → Bool
are_matched user_id other_id m =
    (m.participant_one_user_id == user_id && m.participant_two_user_id == other_id)
    || (m.participant_two_user_id == user_id && m.participant_one_user_id == other_id)

-- `char_length(btrim(full_name)) BETWEEN 1 AND 120`, which NULL does not meet.
abbrev pub has_name : Option Text → Bool
has_name none = false
has_name (some name) = leb 1 (length (btrim name)) && leb (length (btrim name)) 120

-- `User.semester_id == …`, which is `IS NULL` for no semester.
abbrev pub same_option : Option ℕ → Option ℕ → Bool
same_option none none = true
same_option none (some n) = false
same_option (some m) none = false
same_option (some m) (some n) = m == n

-- The conditions on the owner of a profile.
abbrev pub is_candidate_user : EligibleMatchingPrincipal → StudentProfile → User → Bool
is_candidate_user current p u =
    u.id == p.user_id
    && is_user_role u.role
    && same_option u.semester_id current.semester_id
    && u.is_active
    && is_none u.deleted_at
    && is_some u.email_verified_at

-- All conditions, for a profile through the join with its owner.
unfoldable pub is_candidate : EligibleMatchingPrincipal → Db → StudentProfile → Bool
is_candidate current db p =
    any (is_candidate_user current p) db.users
    && is_none p.deleted_at
    && not (p.user_id == current.user_id)
    && not (p.id == current.profile_id)
    && is_some p.student_type
    && not (has_type p.student_type current.student_type)
    && p.matching_opt_in
    && not (any (are_matched current.user_id p.user_id) db.matches)
    && has_name p.full_name
    && length (select (is_ready_avatar p.id) db.photos) == 1
    && (leb 1 (interest_count p.id db) && leb (interest_count p.id db) 20)
    && (leb 1 (language_count p.id db) && leb (language_count p.id db) 10)

unfoldable pub eligible_candidates :
    EligibleMatchingPrincipal → ℕ → Db → Result (List StudentProfile)
eligible_candidates current limit db = do
  raise_if (ltb limit 1) (value_error Complaint.limit_not_positive)
  ok (
      take limit (
        join_avatars db.photos
          (sort_by (λ p q. leb p.id q.id) (select (is_candidate current db) db.profiles))))

unfoldable pub list_eligible_matching_profiles :
    EligibleMatchingPrincipal → CatalogLocale → ℕ → Db → Result (List SafeMatchingProfile)
list_eligible_matching_profiles current locale limit db = do
  rows ← eligible_candidates current limit db
  ok (project_safe_profiles locale db rows)

-- The row of the current participant.
abbrev pub current_rows : EligibleMatchingPrincipal → Db → List StudentProfile
current_rows current db = join_avatars db.photos (
    select
      (λ p.
        p.id == current.profile_id
        && p.user_id == current.user_id
        && has_type p.student_type current.student_type
        && is_none p.deleted_at)
      db.profiles)

abbrev pub candidate_of :
    EligibleMatchingPrincipal → StudentProfile → SafeMatchingProfile → EligibleMatchingCandidate
candidate_of current p safe = record {
  principal = record {
    user_id = p.user_id;
    profile_id = p.id;
    student_type = safe.student_type;
    semester_id = current.semester_id;
  };
  profile = safe;
}

-- `zip(…, strict=True)`, which raises on lists of different lengths.
abbrev pub zip_candidates :
    EligibleMatchingPrincipal
    → List StudentProfile
    → List SafeMatchingProfile
    → Result (List EligibleMatchingCandidate)
zip_candidates current [] [] = ok []
zip_candidates current [] (safe ∷ rest) = err runtime_error
zip_candidates current (p ∷ ps) [] = err runtime_error
zip_candidates current (p ∷ ps) (safe ∷ rest) = do
  others ← zip_candidates current ps rest
  ok (candidate_of current p safe ∷ others)

-- The projected profiles, the current one first.
abbrev pub split_projected :
    EligibleMatchingPrincipal
    → List StudentProfile
    → List SafeMatchingProfile
    → Result (Option SafeMatchingProfile × List EligibleMatchingCandidate)
split_projected current rows [] = ok (none, [])
split_projected current rows (safe ∷ rest) =
    if not (safe.id == current.profile_id)
    then ok (none, [])
    else do candidates ← zip_candidates current rows rest; ok (some safe, candidates)

unfoldable pub load_matching_scoring_profiles :
    EligibleMatchingPrincipal
    → CatalogLocale
    → ℕ
    → Db
    → Result (Option SafeMatchingProfile × List EligibleMatchingCandidate)
load_matching_scoring_profiles current locale candidate_limit db = do
  raise_if (ltb candidate_limit 1) (value_error Complaint.limit_not_positive)
  if not (length (current_rows current db) == 1) then ok (none, []) else do
    rows ← eligible_candidates current candidate_limit db
    split_projected current rows (project_safe_profiles locale db (current_rows current db ++ rows))

unfoldable pub get_eligible_candidate_avatar :
    EligibleMatchingPrincipal → ℕ → Db → Option ProfilePhoto
get_eligible_candidate_avatar current photo_id db =
    scalar
      (λ photo.
        photo.id == photo_id
        && any (λ p. is_ready_avatar p.id photo && is_candidate current db p) db.profiles)
      db.photos
