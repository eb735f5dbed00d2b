-- ===== src/Matching/Identities.antt =====
-- The sets of signal identities of a profile and their similarity
-- (`_preference_identities`, `_language_identities`, `_jaccard`, `_exact_overlap` and
-- `_major_similarity` of apps/api/app/services/matching_scoring.py).
pub mod Sets
use buddy_web_ver.Base.{
  ℕ, ◌+◌, Bool, true, false, not, ◌&&◌, ◌||◌, Option, none, some, List, [], ◌∷◌, ◌++◌,
  if◌then◌else◌, length, any, select, text_eq,
}
use buddy_web_ver.Errors.{Result, ok, err}
use buddy_web_ver.Text.{Text, uuid_text}
use buddy_web_ver.Preferences.{Unicode, normalize_preference_key}
use buddy_web_ver.Matching.Fractions.{Fraction, zero_fraction, one_fraction}

-- The tuples `("custom", key)` and `("catalog", key)`.
pub data SignalIdentity : Type 0 where
  custom : Text → SignalIdentity
  catalog : Text → SignalIdentity

abbrev pub identity_eq : SignalIdentity → SignalIdentity → Bool
identity_eq (custom a) (custom b) = text_eq a b
identity_eq (catalog a) (catalog b) = text_eq a b
identity_eq (custom a) (catalog b) = false
identity_eq (catalog a) (custom b) = false

-- An Interest or an Activity of a profile, with the fields that scoring reads.
pub record SafeMatchingPreference : Type 0 where
  pub id : Option ℕ
  pub label : Text
  pub is_custom : Bool

pub record SafeMatchingLanguage : Type 0 where
  pub code : Option Text
  pub label : Text
  pub is_custom : Bool

-- `value in identities`
abbrev pub contains : List SignalIdentity → SignalIdentity → Bool
contains xs x = any (identity_eq x) xs

-- A set holds each identity once: `identities.add(value)`.
abbrev pub add : SignalIdentity → List SignalIdentity → List SignalIdentity
add x xs = if contains xs x then xs else x ∷ xs

abbrev pub add_option : Option SignalIdentity → List SignalIdentity → List SignalIdentity
add_option none xs = xs
add_option (some x) xs = add x xs

module _ (unicode : Unicode) where
  -- `_normalized_custom_key`; `_normalized_major` does the same with a value that may be missing.
  unfoldable pub normalized_custom_key : Text → Option Text
  normalized_custom_key label = elim (normalize_preference_key unicode label) [
    | ok key ↦ some key
    | err e ↦ none
  ]

  abbrev pub custom_identity : Text → Option SignalIdentity
  custom_identity label = elim (normalized_custom_key label) [
    | none ↦ none
    | some key ↦ some (custom key)
  ]

  abbrev pub preference_identity : SafeMatchingPreference → Option SignalIdentity
  preference_identity value =
      if value.is_custom
      then custom_identity value.label
      else elim value.id [ none ↦ none | some id ↦ some (catalog (uuid_text id)) ]

  -- The loop over the values, from the last to the first: a set has no order.
  unfoldable pub preference_identities : List SafeMatchingPreference → List SignalIdentity
  preference_identities [] = []
  preference_identities (value ∷ values) =
      add_option (preference_identity value) (preference_identities values)

  abbrev pub language_identity : SafeMatchingLanguage → Option SignalIdentity
  language_identity value =
      if value.is_custom
      then custom_identity value.label
      else elim value.code [ none ↦ none | some code ↦ some (catalog (unicode.casefold code)) ]

  unfoldable pub language_identities : List SafeMatchingLanguage → List SignalIdentity
  language_identities [] = []
  language_identities (value ∷ values) =
      add_option (language_identity value) (language_identities values)

  unfoldable pub normalized_major : Option Text → Option Text
  unfolding normalized_custom_key
  normalized_major none = none
  normalized_major (some value) = normalized_custom_key value

  abbrev pub same_key : Option Text → Option Text → Fraction
  same_key (some left) (some right) = if text_eq left right then one_fraction else zero_fraction
  same_key (some left) none = zero_fraction
  same_key none right = zero_fraction

  unfoldable pub major_similarity : Option Text → Option Text → Fraction
  major_similarity left right = same_key (normalized_major left) (normalized_major right)

-- `left & right` and `left | right`.
abbrev pub intersection : List SignalIdentity → List SignalIdentity → List SignalIdentity
intersection left right = select (contains right) left

abbrev pub union : List SignalIdentity → List SignalIdentity → List SignalIdentity
union left right = left ++ select (λ x. not (contains left x)) right

abbrev pub is_nonempty : List SignalIdentity → Bool
is_nonempty [] = false
is_nonempty (x ∷ xs) = true

unfoldable pub jaccard : List SignalIdentity → List SignalIdentity → Fraction
jaccard left right =
    if is_nonempty (union left right)
    then record {
      numerator = length (intersection left right);
      denominator = length (union left right);
    }
    else zero_fraction

unfoldable pub exact_overlap : List SignalIdentity → List SignalIdentity → Fraction
exact_overlap left right =
    if is_nonempty (intersection left right) then one_fraction else zero_fraction
