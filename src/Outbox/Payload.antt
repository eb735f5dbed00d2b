-- ===== src/Outbox/Payload.antt =====
-- The checks of an event's payload: no key that may hold a secret, and nothing that JSON cannot
-- hold (`_contains_sensitive_key` and `_validated_payload`).
use buddy_web_ver.Base.{
  ℕ, Bool, true, false, not, ◌&&◌, ◌||◌, List, [], ◌∷◌, map, ◌==◌, if◌then◌else◌, any,
}
use buddy_web_ver.Errors.{outbox_validation, Result, ok, ◌>>◌, raise_if}
use buddy_web_ver.Text.{Text, codes, contains_text}
use buddy_web_ver.Accounts.Email.{ascii_fold}
use buddy_web_ver.Models.Json.{
  Json, JsonItems, JsonFields, null, bool, number, not_finite, opaque, text, array, object, end,
  item, end_fields, field,
}

-- How `re.IGNORECASE` folds a character of the pattern: the ASCII letters, and the four others that
-- match `i`, `s` and `k`.
abbrev pub pattern_fold : ℕ → ℕ
pattern_fold c =
    if c == 0x130 || c == 0x131
    then 105
    else if c == 0x17f
    then 115
    else if c == 0x212a
    then 107
    else ascii_fold c

abbrev pub sensitive_words : List Text
sensitive_words =
    codes "token"
    ∷ codes "secret"
    ∷ codes "password"
    ∷ codes "authorization"
    ∷ codes "credential"
    ∷ codes "apikey"
    ∷ codes "api_key"
    ∷ codes "api-key"
    ∷ []

-- `_SENSITIVE_PAYLOAD_KEY.search(key) is not None`
unfoldable pub is_sensitive_key : Text → Bool
is_sensitive_key key = any (λ word. contains_text word (map pattern_fold key)) sensitive_words

unfoldable mutual
  pub contains_sensitive_key : Json → Bool
  contains_sensitive_key null = false
  contains_sensitive_key (bool b) = false
  contains_sensitive_key (number n) = false
  contains_sensitive_key not_finite = false
  contains_sensitive_key opaque = false
  contains_sensitive_key (text t) = false
  contains_sensitive_key (array items) = items_contain_sensitive_key items
  contains_sensitive_key (object fields) = fields_contain_sensitive_key fields

  pub items_contain_sensitive_key : JsonItems → Bool
  items_contain_sensitive_key end = false
  items_contain_sensitive_key (item value items) =
      contains_sensitive_key value || items_contain_sensitive_key items

  pub fields_contain_sensitive_key : JsonFields → Bool
  fields_contain_sensitive_key end_fields = false
  fields_contain_sensitive_key (field key value fields) =
      is_sensitive_key key || contains_sensitive_key value || fields_contain_sensitive_key fields

-- `json.dumps(value, allow_nan=False)` succeeds.
unfoldable mutual
  pub is_json_safe : Json → Bool
  is_json_safe null = true
  is_json_safe (bool b) = true
  is_json_safe (number n) = true
  is_json_safe not_finite = false
  is_json_safe opaque = false
  is_json_safe (text t) = true
  is_json_safe (array items) = items_are_json_safe items
  is_json_safe (object fields) = fields_are_json_safe fields

  pub items_are_json_safe : JsonItems → Bool
  items_are_json_safe end = true
  items_are_json_safe (item value items) = is_json_safe value && items_are_json_safe items

  pub fields_are_json_safe : JsonFields → Bool
  fields_are_json_safe end_fields = true
  fields_are_json_safe (field key value fields) = is_json_safe value && fields_are_json_safe fields

unfoldable pub validated_payload : JsonFields → Result JsonFields
validated_payload payload = do
  raise_if (contains_sensitive_key (object payload)) outbox_validation
  raise_if (not (is_json_safe (object payload))) outbox_validation
  ok payload
