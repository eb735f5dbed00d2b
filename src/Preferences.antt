-- ===== src/Preferences.antt =====
-- The display label and the comparison key of a custom preference
-- (apps/api/app/services/preference_identity.py). Python's Unicode tables and casefolding are the
-- parameter `Unicode`.
pub mod Identity
use buddy_web_ver.Base.{
  ℕ, ◌≡◌, Bool, true, false, not, ◌&&◌, ◌||◌, List, [], ◌∷◌, ltb, ◌==◌, if◌then◌else◌, length, any,
}
use buddy_web_ver.Errors.{
  Exception, preference_identity_error, Result, ok, err, ◌>>=◌, ◌>>◌, raise_if,
}
use buddy_web_ver.Text.{Text, is_empty, collapse_whitespace}

-- `unicodedata.category(character) in {"Cc", "Cf", "Cs"}`, `unicodedata.normalize("NFKC", value)`
-- and `str.casefold`.
pub record Unicode : Type 0 where
  pub unsafe_category : ℕ → Bool
  pub nfkc : Text → Text
  pub casefold : Text → Text

abbrev pub max_custom_preference_display_label_length : ℕ
max_custom_preference_display_label_length = 120

abbrev pub max_custom_preference_normalized_key_length : ℕ
max_custom_preference_normalized_key_length = 255

abbrev pub max_custom_preference_input_length : ℕ
max_custom_preference_input_length = max_custom_preference_normalized_key_length

pub record PreferenceIdentity : Type 0 where
  pub display_label : Text
  pub normalized_key : Text

module _ (unicode : Unicode) where
  -- A tab is the one control character that is allowed.
  unfoldable pub contains_unsafe_control : Text → Bool
  contains_unsafe_control value = any (λ c. unicode.unsafe_category c && not (c == 9)) value

  abbrev pub require_safe_text : Text → Result (Unit {0})
  require_safe_text value = raise_if (contains_unsafe_control value) preference_identity_error

  unfoldable pub normalize_preference_identity : Text → Result PreferenceIdentity
  normalize_preference_identity value = do
    raise_if (ltb max_custom_preference_input_length (length value)) preference_identity_error
    require_safe_text value
    let display = collapse_whitespace value
    raise_if (is_empty display) preference_identity_error
    raise_if (ltb max_custom_preference_display_label_length (length display))
        preference_identity_error
    let key = unicode.casefold (collapse_whitespace (unicode.nfkc value))
    require_safe_text display
    require_safe_text key
    raise_if (is_empty key) preference_identity_error
    raise_if (ltb max_custom_preference_normalized_key_length (length key))
        preference_identity_error
    ok (record { display_label = display; normalized_key = key })

  unfoldable pub normalize_preference_key : Text → Result Text
  normalize_preference_key value = do
    identity ← normalize_preference_identity value
    ok identity.normalized_key
