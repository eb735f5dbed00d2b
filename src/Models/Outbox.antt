-- ===== src/Models/Outbox.antt =====
-- The transactional outbox row and its check constraints
-- (apps/api/app/models/transactional_outbox.py).
use buddy_web_ver.Base.{
  ℕ, ◌≡◌, Bool, true, false, not, ◌&&◌, ◌||◌, Option, leb, length, is_none, is_some,
}
use buddy_web_ver.Text.{Text, btrim}
use buddy_web_ver.Models.Json.{JsonFields}

pub record TransactionalOutbox : Type 0 where
  pub id : ℕ
  pub event_type : Text
  pub aggregate_id : ℕ
  pub recipient_user_id : Option ℕ
  pub recipient_email : Text
  pub idempotency_key : Text
  pub payload : JsonFields
  pub attempts : ℕ
  pub next_attempt_at : ℕ
  pub lease_owner : Option Text
  pub lease_expires_at : Option ℕ
  pub sent_at : Option ℕ
  pub failed_at : Option ℕ
  pub provider_message_id : Option Text
  pub last_error_code : Option Text
  pub created_at : ℕ
  pub updated_at : ℕ
  pub deleted_at : Option ℕ

abbrev pub bool_eq : Bool → Bool → Bool
bool_eq true b = b
bool_eq false b = not b

-- `length(btrim(column)) BETWEEN 1 AND maximum`
abbrev pub trimmed_length_within : ℕ → Text → Bool
trimmed_length_within maximum value =
    leb 1 (length (btrim value)) && leb (length (btrim value)) maximum

-- The check constraints of the table. That the payload is an object is its type here, and that
-- `attempts` is not negative is the type of the number.
pub record IsStored (row : TransactionalOutbox) : Type 0 where
  pub event_type_length : trimmed_length_within 100 row.event_type ≡ true
  pub recipient_email_length : trimmed_length_within 320 row.recipient_email ≡ true
  pub idempotency_key_length : trimmed_length_within 256 row.idempotency_key ≡ true
  pub lease_pair : bool_eq (is_none row.lease_owner) (is_none row.lease_expires_at) ≡ true
  pub one_terminal_state : not (is_some row.sent_at && is_some row.failed_at) ≡ true
  pub terminal_lease_clear :
      (is_none row.sent_at && is_none row.failed_at)
        || (is_none row.lease_owner && is_none row.lease_expires_at)
      ≡ true
