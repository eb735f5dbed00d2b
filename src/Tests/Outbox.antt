-- ===== src/Tests/Outbox.antt =====
-- The outbox theorems at a concrete event.
use buddy_web_ver.Base.{ℕ, ◌+◌, ◌≤◌, ◌≡◌, refl, true, false, Bool, none, some, [], ◌∷◌, arith, elem}
use buddy_web_ver.Errors.{ok}
use buddy_web_ver.Time.{aware, minute}
use buddy_web_ver.Text.{Text, codes, strip}
use buddy_web_ver.Accounts.Email.{
  canonicalize_email, is_valid_local_part, is_valid_domain, domain_labels, is_domain_label,
}
use buddy_web_ver.Outbox.Payload.{
  validated_payload, contains_sensitive_key, is_sensitive_key, is_json_safe,
}
use buddy_web_ver.Models.Json.{field, end_fields, text}
use buddy_web_ver.Models.Outbox.{TransactionalOutbox, IsStored}
use buddy_web_ver.Db.{Db}
use buddy_web_ver.Outbox.Event.{EmailEvent, outbox_row, validate_identifier}
use buddy_web_ver.Outbox.Claim.{claim_transactional_outbox, lease_row, ready_rows}
use buddy_web_ver.Outbox.Finalize.{
  Failure, delivery_error, finalize_row, finalize_delivery, max_delivery_attempts, retry, skipped,
}
use buddy_web_ver.Outbox.Steps.{
  Steps, claims, finalizes, here, next, IsFresh, is_finished, deliveries_bounded,
}
use buddy_web_ver.Outbox.Fresh.{outbox_row-IsFresh}
use buddy_web_ver.Outbox.Leases.{claims_disjoint, ids}
use buddy_web_ver.Outbox.Moves.{Moves, finalize-Moves}
use buddy_web_ver.Outbox.Claimed.{Claims, claim-Moves}
use buddy_web_ver.Tests.Data.{empty_db}

abbrev created_event : EmailEvent
created_event = record {
  event_type = codes "MATCHING_INVITATION_CREATED";
  aggregate_id = 7;
  recipient_user_id = some 2;
  recipient_email = codes " Mai.Anh@Student.VGU.edu.vn";
  idempotency_key = codes "matching-invitation-created:7";
  payload = field (codes "invitation_id") (text (codes "7")) end_fields;
}

abbrev event_row : TransactionalOutbox
event_row = record {
  id = 31;
  event_type = codes "MATCHING_INVITATION_CREATED";
  aggregate_id = 7;
  recipient_user_id = some 2;
  recipient_email = codes "mai.anh@student.vgu.edu.vn";
  idempotency_key = codes "matching-invitation-created:7";
  payload = field (codes "invitation_id") (text (codes "7")) end_fields;
  attempts = 0;
  next_attempt_at = 1000;
  lease_owner = none;
  lease_expires_at = none;
  sent_at = none;
  failed_at = none;
  provider_message_id = none;
  last_error_code = none;
  created_at = 1000;
  updated_at = 1000;
  deleted_at = none;
}

event_row_made : outbox_row 31 created_event (aware 1000) ≡ ok event_row
unfolding outbox_row validate_identifier strip canonicalize_email is_valid_local_part
    is_valid_domain domain_labels is_domain_label validated_payload contains_sensitive_key
    is_sensitive_key is_json_safe
event_row_made = refl

outbox_row-IsFresh_example :
    IsFresh event_row
    × (event_row.event_type ≡ strip created_event.event_type)
    × (event_row.idempotency_key ≡ strip created_event.idempotency_key)
    × (canonicalize_email created_event.recipient_email ≡ some event_row.recipient_email)
outbox_row-IsFresh_example =
    outbox_row-IsFresh 31 created_event (aware 1000) event_row event_row_made

event_row-IsFresh : IsFresh event_row
event_row-IsFresh = (outbox_row-IsFresh 31 created_event (aware 1000) event_row event_row_made).0

abbrev worker : Text
worker = codes "worker-1"

abbrev leased : TransactionalOutbox
leased = lease_row worker 2000 event_row

abbrev failure : Failure
failure = delivery_error true (codes "provider_timeout")

abbrev retried : TransactionalOutbox
retried = record leased {
  attempts = 1;
  next_attempt_at = 3000 + minute;
  lease_owner = none;
  lease_expires_at = none;
  updated_at = 3000;
  last_error_code = some (codes "provider_timeout");
}

retried_made : finalize_row none (some failure) 3000 leased ≡ ok (retry, retried)
unfolding finalize_row
retried_made = refl

abbrev two_steps : Steps 1 event_row retried
two_steps =
    next (claims worker 2000 refl)
      (next (finalizes worker none (some failure) 3000 retry refl retried_made) here)

deliveries_bounded_example :
    IsStored retried
    × (1 ≤ max_delivery_attempts)
    × (retried.attempts ≡ 1)
    × (1 ≡ max_delivery_attempts → is_finished retried ≡ true)
deliveries_bounded_example = deliveries_bounded 1 event_row retried event_row-IsFresh two_steps

abbrev nothing_locked : ℕ → Bool
nothing_locked k = false

abbrev event_db : Db
event_db = record empty_db { outbox = event_row ∷ [] }

abbrev leased_db : Db
leased_db = record empty_db { outbox = leased ∷ [] }

first_claim :
    claim_transactional_outbox nothing_locked worker 20 (aware 2000) event_db
    ≡ ok (31 ∷ [], leased_db)
unfolding claim_transactional_outbox ready_rows validate_identifier strip
first_claim = refl

second_claim :
    claim_transactional_outbox nothing_locked (codes "worker-2") 20 (aware 5000) leased_db
    ≡ ok ([], leased_db)
unfolding claim_transactional_outbox ready_rows validate_identifier strip
second_claim = refl

claims_disjoint_example : elem 31 [] ≡ false
claims_disjoint_example =
    claims_disjoint nothing_locked nothing_locked worker (codes "worker-2") 20 20 2000 5000 31
      event_db leased_db leased_db (31 ∷ []) [] first_claim second_claim (omega arith) refl

claim-Moves_example :
    (name : Text) × (validate_identifier 100 worker ≡ ok name)
    × Claims nothing_locked name 2000 (31 ∷ []) event_db.outbox leased_db.outbox
    × Moves event_db.outbox leased_db.outbox
    × ((k : ℕ) → elem k (31 ∷ []) ≡ true → elem k (ids event_db.outbox) ≡ true)
    × (1 ≤ 20)
claim-Moves_example =
    claim-Moves nothing_locked worker 20 2000 event_db leased_db (31 ∷ []) (refl, tt) first_claim

abbrev retried_db : Db
retried_db = record empty_db { outbox = retried ∷ [] }

retry_recorded :
    finalize_delivery 31 worker none (some failure) (aware 3000) leased_db ≡ ok (retry, retried_db)
unfolding finalize_delivery
retry_recorded = refl

finalize-Moves_example :
    Moves leased_db.outbox retried_db.outbox × (retry ≡ skipped → retried_db ≡ leased_db)
finalize-Moves_example =
    finalize-Moves 31 worker none (some failure) (aware 3000) leased_db retried_db retry (refl, tt)
      retry_recorded
