-- ===== src/Preferences/Identity.antt =====
-- What an accepted preference label guarantees.
use buddy_web_ver.Base.{◌≤◌, ◌≡◌, false, arith, length}
use buddy_web_ver.Errors.{ok}
use buddy_web_ver.Text.{Text, collapse_whitespace}
use buddy_web_ver.Text.Collapse.{collapse-collapse}
use buddy_web_ver.Preferences.{
  Unicode, PreferenceIdentity, contains_unsafe_control, normalize_preference_identity,
}

module _ (unicode : Unicode) (value : Text) (i : PreferenceIdentity) where
  -- An accepted label is the input with its white space collapsed, which collapsing again would not
  -- change; label and key are not empty, within 120 and 255 characters, and free of unsafe control
  -- characters; and the key comes from the NFKC form of the input.
  pub identity_accepted :
      normalize_preference_identity unicode value ≡ ok i
      → (i.display_label ≡ collapse_whitespace value)
        × (collapse_whitespace i.display_label ≡ i.display_label)
        × (i.normalized_key ≡ unicode.casefold (collapse_whitespace (unicode.nfkc value)))
        × ((1 ≤ length i.display_label) × (length i.display_label ≤ 120))
        × ((1 ≤ length i.normalized_key) × (length i.normalized_key ≤ 255))
        × (contains_unsafe_control unicode i.display_label ≡ false)
        × (contains_unsafe_control unicode i.normalized_key ≡ false)
  unfolding normalize_preference_identity
  identity_accepted h = ground (arith, collapse-collapse value)
