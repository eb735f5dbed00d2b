-- ===== src/Outbox/Event.antt =====
-- The validated arguments of an event (`_validate_identifier` and the first part of
-- `enqueue_transactional_email`).
use buddy_web_ver.Base.{
  ℕ, Bool, false, not, ◌&&◌, ◌||◌, Option, none, [], ◌∷◌, ltb, leb, ◌==◌, if◌then◌else◌, length,
  all, elem,
}
use buddy_web_ver.Errors.{outbox_validation, Result, ok, err, or_raise, raise_if, ◌>>=◌, ◌>>◌}
use buddy_web_ver.Time.{Datetime, utc_now}
use buddy_web_ver.Text.{Text, strip, is_empty}
use buddy_web_ver.Accounts.Email.{canonicalize_email, is_upper, is_digit}
use buddy_web_ver.Models.Json.{JsonFields}
use buddy_web_ver.Models.Outbox.{TransactionalOutbox}
use buddy_web_ver.Outbox.Payload.{validated_payload}

unfoldable pub validate_identifier : ℕ → Text → Result Text
validate_identifier maximum value =
    let normalized = strip value in
    if is_empty normalized
      || ltb maximum (length normalized)
      || elem 13 normalized
      || elem 10 normalized
    then err outbox_validation
    else ok normalized

-- `_EVENT_TYPE`
abbrev pub is_event_type : Text → Bool
is_event_type [] = false
is_event_type (x ∷ xs) =
    is_upper x && leb (length xs) 99 && all (λ c. is_upper c || is_digit c || c == 95) xs

-- The arguments of `enqueue_transactional_email`.
pub record EmailEvent : Type 0 where
  pub event_type : Text
  pub aggregate_id : ℕ
  pub recipient_user_id : Option ℕ
  pub recipient_email : Text
  pub idempotency_key : Text
  pub payload : JsonFields

-- The row that the validated arguments make, with the key that the database gives it.
unfoldable pub outbox_row : ℕ → EmailEvent → Datetime → Result TransactionalOutbox
outbox_row new_id event clock = do
  event_type ← validate_identifier 100 event.event_type
  raise_if (not (is_event_type event_type)) outbox_validation
  idempotency_key ← validate_identifier 256 event.idempotency_key
  email ← or_raise (canonicalize_email event.recipient_email) outbox_validation
  current_time ← utc_now clock
  payload ← validated_payload event.payload
  ok (record {
    id = new_id;
    event_type = event_type;
    aggregate_id = event.aggregate_id;
    recipient_user_id = event.recipient_user_id;
    recipient_email = email;
    idempotency_key = idempotency_key;
    payload = payload;
    attempts = 0;
    next_attempt_at = current_time;
    lease_owner = none;
    lease_expires_at = none;
    sent_at = none;
    failed_at = none;
    provider_message_id = none;
    last_error_code = none;
    created_at = current_time;
    updated_at = current_time;
    deleted_at = none;
  })
