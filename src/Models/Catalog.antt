-- ===== src/Models/Catalog.antt =====
-- The preference catalogs and a profile's selections (apps/api/app/models/profile_catalog.py).
use buddy_web_ver.Base.{ℕ, Bool, true, false, Option}
use buddy_web_ver.Text.{Text}

pub data PreferenceKind : Type 0 where
  interest language activity : PreferenceKind

-- A catalog entry: an interest or an activity, with its `id`, or a language, whose key is
-- its `code` and which is never deleted.
pub record CatalogItem : Type 0 where
  pub id : ℕ
  pub code : Text
  pub label_en : Text
  pub label_de : Text
  pub is_active : Bool
  pub deleted_at : Option ℕ

-- A row of `profile_languages`, without the proficiency.
pub record ProfileLanguage : Type 0 where
  pub profile_id : ℕ
  pub language_code : Text

-- A row of `profile_interests` or `profile_activities`.
pub record Selection : Type 0 where
  pub profile_id : ℕ
  pub item_id : ℕ

pub record ProfileCustomPreference : Type 0 where
  pub profile_id : ℕ
  pub kind : PreferenceKind
  pub display_label : Text
  pub normalized_key : Text
  pub deleted_at : Option ℕ

abbrev pub kind_is : PreferenceKind → PreferenceKind → Bool
kind_is interest interest = true
kind_is language language = true
kind_is activity activity = true
kind_is _ _ = false
