-- ===== src/Matching/Projection.antt =====
-- The safe profiles that scoring reads (`_project_safe_profiles` and
-- `load_matching_pair_scoring_profiles` of apps/api/app/services/matching_eligibility.py), with the
-- columns that scoring reads. A check constraint gives each custom language its proficiency.
use buddy_web_ver.Base.{
  ℕ, Bool, true, false, not, ◌&&◌, ◌||◌, Option, none, some, List, [], ◌∷◌, ◌++◌, leb, ◌==◌,
  if◌then◌else◌, is_none, length, map, select, scalar, sort_by, text_eq,
}
use buddy_web_ver.Text.{Text}
use buddy_web_ver.Models.Profile.{StudentProfile, StudentType, ProfilePhoto, type_is}
use buddy_web_ver.Models.Catalog.{
  CatalogItem, PreferenceKind, interest, language, activity, ProfileLanguage, Selection,
  ProfileCustomPreference, kind_is,
}
use buddy_web_ver.Db.{Db}
use buddy_web_ver.Matching.Identities.{SafeMatchingPreference, SafeMatchingLanguage}
use buddy_web_ver.Matching.Scoring.{SafeMatchingProfile}
use buddy_web_ver.Matching.Eligibility.{EligibleMatchingPrincipal, matching_pair_is_eligible}

pub data CatalogLocale : Type 0 where
  en de : CatalogLocale

abbrev pub localized_label : CatalogLocale → CatalogItem → Text
localized_label en item = item.label_en
localized_label de item = item.label_de

-- A profile once for each of its ready avatars, as the join gives it.
abbrev pub join_avatars : List ProfilePhoto → List StudentProfile → List StudentProfile
join_avatars photos [] = []
join_avatars photos (p ∷ ps) =
    map (λ photo. p)
      (select
        (λ photo.
          photo.profile_id == p.id && photo.is_avatar && photo.is_ready && is_none photo.deleted_at)
        photos)
    ++ join_avatars photos ps

-- The active catalog entries that a profile selected.
abbrev pub selected_items : ℕ → List CatalogItem → List Selection → List CatalogItem
selected_items profile_id items [] = []
selected_items profile_id items (s ∷ ss) =
    select
      (λ item.
        s.profile_id == profile_id
        && item.id == s.item_id
        && item.is_active
        && is_none item.deleted_at)
      items
    ++ selected_items profile_id items ss

abbrev pub spoken_items : ℕ → List CatalogItem → List ProfileLanguage → List CatalogItem
spoken_items profile_id items [] = []
spoken_items profile_id items (s ∷ ss) =
    select
      (λ item. s.profile_id == profile_id && text_eq item.code s.language_code && item.is_active)
      items
    ++ spoken_items profile_id items ss

abbrev pub customs : PreferenceKind → ℕ → List ProfileCustomPreference → List Text
customs kind profile_id preferences =
    map (λ c. c.display_label)
      (select (λ c. c.profile_id == profile_id && kind_is c.kind kind && is_none c.deleted_at)
        preferences)

abbrev pub preferences_of :
    CatalogLocale → List CatalogItem → List Text → List SafeMatchingPreference
preferences_of locale items labels =
    map
      (λ item. record { id = some item.id; label = localized_label locale item; is_custom = false })
      items
    ++ map (λ label. record { id = none; label = label; is_custom = true }) labels

abbrev pub languages_of : CatalogLocale → List CatalogItem → List Text → List SafeMatchingLanguage
languages_of locale items labels =
    map
      (λ item. record {
        code = some item.code;
        label = localized_label locale item;
        is_custom = false;
      })
      items
    ++ map (λ label. record { code = none; label = label; is_custom = true }) labels

abbrev pub safe_profile : CatalogLocale → Db → StudentProfile → StudentType → SafeMatchingProfile
safe_profile locale db p kind = record {
  id = p.id;
  student_type = kind;
  major = p.major;
  interests =
      preferences_of locale (selected_items p.id db.interests db.profile_interests)
        (customs interest p.id db.custom_preferences);
  languages =
      languages_of locale (spoken_items p.id db.languages db.profile_languages)
        (customs language p.id db.custom_preferences);
  activities =
      preferences_of locale (selected_items p.id db.activities db.profile_activities)
        (customs activity p.id db.custom_preferences);
  availability = p.availability;
}

-- A row without a student type is skipped.
abbrev pub add_safe :
    CatalogLocale
    → Db
    → StudentProfile
    → Option StudentType
    → List SafeMatchingProfile
    → List SafeMatchingProfile
add_safe locale db p none rest = rest
add_safe locale db p (some kind) rest = safe_profile locale db p kind ∷ rest

unfoldable pub project_safe_profiles :
    CatalogLocale → Db → List StudentProfile → List SafeMatchingProfile
project_safe_profiles locale db [] = []
project_safe_profiles locale db (p ∷ ps) =
    add_safe locale db p p.student_type (project_safe_profiles locale db ps)

abbrev pub has_type : Option StudentType → StudentType → Bool
has_type none kind = false
has_type (some k) kind = type_is k kind

-- The projected profile of a principal, if its row still is the principal's.
abbrev pub confirmed :
    EligibleMatchingPrincipal
    → Option StudentProfile
    → Option SafeMatchingProfile
    → Option SafeMatchingProfile
confirmed principal (some persisted) (some safe) =
    if not (persisted.user_id == principal.user_id)
      || not (has_type persisted.student_type principal.student_type)
      || not (type_is safe.student_type principal.student_type)
    then none
    else some safe
confirmed principal (some persisted) none = none
confirmed principal none safe = none

abbrev pub of_principal :
    EligibleMatchingPrincipal
    → List StudentProfile
    → List SafeMatchingProfile
    → Option SafeMatchingProfile
of_principal principal rows projected =
    confirmed principal (scalar (λ p. p.id == principal.profile_id) rows)
      (scalar (λ p. p.id == principal.profile_id) projected)

abbrev pub both {ℓ} : {A : Type ℓ} → Option A → Option A → Option (A × A)
both (some a) (some b) = some (a, b)
both (some a) none = none
both none b = none

-- The rows of a pair.
abbrev pub pair_rows : ℕ → ℕ → Db → List StudentProfile
pair_rows first second db = join_avatars db.photos (
    sort_by (λ p q. leb p.id q.id)
      (select (λ p. (p.id == first || p.id == second) && is_none p.deleted_at) db.profiles))

unfoldable pub load_matching_pair_scoring_profiles :
    EligibleMatchingPrincipal
    → EligibleMatchingPrincipal
    → CatalogLocale
    → Db
    → Option (SafeMatchingProfile × SafeMatchingProfile)
load_matching_pair_scoring_profiles first second locale db =
    let rows = pair_rows first.profile_id second.profile_id db in
    let projected = project_safe_profiles locale db rows in
    if not (matching_pair_is_eligible first second)
      || not (length rows == 2)
      || not (length projected == 2)
    then none
    else both (of_principal first rows projected) (of_principal second rows projected)
