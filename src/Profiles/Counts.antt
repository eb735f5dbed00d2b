-- ===== src/Profiles/Counts.antt =====
-- The counts that completion reads from the tables (`_count_ready_avatars`,
-- `_count_valid_interests`, `_count_valid_languages` and `get_profile_completion` of
-- apps/api/app/services/profile_completion.py).
use buddy_web_ver.Base.{
  ℕ, suc, ◌+◌, not, ◌&&◌, ◌||◌, List, [], ◌∷◌, ◌++◌, map, ◌==◌, if◌then◌else◌, is_none, is_some,
  length, select, any, text_eq,
}
use buddy_web_ver.Errors.{Result, ok, ◌>>=◌, ◌>>◌, raise_if, profile_access_error}
use buddy_web_ver.Text.{Text}
use buddy_web_ver.Models.User.{User}
use buddy_web_ver.Models.Profile.{StudentProfile}
use buddy_web_ver.Models.Catalog.{
  CatalogItem, Selection, ProfileLanguage, ProfileCustomPreference, PreferenceKind, interest,
  language, kind_is,
}
use buddy_web_ver.Preferences.{Unicode, normalize_preference_key}
use buddy_web_ver.Db.{Db}
use buddy_web_ver.Profiles.Completion.{ProfileCompletion, derive_profile_completion}

unfoldable pub count_ready_avatars : ℕ → Db → ℕ
count_ready_avatars profile_id db = length (
    select
      (λ photo.
        photo.profile_id == profile_id
        && photo.is_avatar
        && photo.is_ready
        && is_none photo.deleted_at)
      db.photos)

-- The join of a profile's selections with the catalog.
unfoldable pub selected_interests : ℕ → List CatalogItem → List Selection → List CatalogItem
selected_interests profile_id items [] = []
selected_interests profile_id items (selection ∷ selections) =
    select
      (λ item.
        selection.profile_id == profile_id
        && item.id == selection.item_id
        && item.is_active
        && is_none item.deleted_at)
      items
    ++ selected_interests profile_id items selections

unfoldable pub selected_languages : ℕ → List CatalogItem → List ProfileLanguage → List CatalogItem
selected_languages profile_id items [] = []
selected_languages profile_id items (selection ∷ selections) =
    select
      (λ item.
        selection.profile_id == profile_id
        && text_eq item.code selection.language_code
        && item.is_active)
      items
    ++ selected_languages profile_id items selections

unfoldable pub custom_keys : PreferenceKind → ℕ → List ProfileCustomPreference → List Text
custom_keys kind profile_id preferences =
    map (λ p. p.normalized_key)
      (select (λ p. p.profile_id == profile_id && kind_is p.kind kind && is_none p.deleted_at)
        preferences)

-- The size of `set(keys).difference(excluded)`.
unfoldable pub count_distinct : List Text → List Text → ℕ
count_distinct excluded [] = 0
count_distinct excluded (key ∷ keys) =
    if any (text_eq key) excluded
    then count_distinct excluded keys
    else suc (count_distinct (key ∷ excluded) keys)

module _ (unicode : Unicode) where
  unfoldable pub catalog_keys : List CatalogItem → Result (List Text)
  catalog_keys [] = ok []
  catalog_keys (item ∷ items) = do
    key_en ← normalize_preference_key unicode item.label_en
    key_de ← normalize_preference_key unicode item.label_de
    keys ← catalog_keys items
    ok (key_en ∷ key_de ∷ keys)

  abbrev pub count_valid : List CatalogItem → List Text → Result ℕ
  count_valid selected custom = do
    keys ← catalog_keys selected
    ok (length selected + count_distinct keys custom)

  unfoldable pub count_valid_interests : ℕ → Db → Result ℕ
  unfolding selected_interests custom_keys
  count_valid_interests profile_id db =
      count_valid (selected_interests profile_id db.interests db.profile_interests)
        (custom_keys interest profile_id db.custom_preferences)

  unfoldable pub count_valid_languages : ℕ → Db → Result ℕ
  unfolding selected_languages custom_keys
  count_valid_languages profile_id db =
      count_valid (selected_languages profile_id db.languages db.profile_languages)
        (custom_keys language profile_id db.custom_preferences)

  unfoldable pub get_profile_completion : User → StudentProfile → Db → Result ProfileCompletion
  get_profile_completion owner profile db = do
    raise_if (not (profile.user_id == owner.id) || is_some profile.deleted_at) profile_access_error
    interests ← count_valid_interests profile.id db
    languages ← count_valid_languages profile.id db
    ok (
        derive_profile_completion owner profile (count_ready_avatars profile.id db) interests
          languages)
