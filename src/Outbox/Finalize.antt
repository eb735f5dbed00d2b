-- ===== src/Outbox/Finalize.antt =====
-- Recording the outcome of a delivery (`_finalize_delivery`).
use buddy_web_ver.Base.{
  ℕ, suc, ◌+◌, Bool, false, ◌&&◌, Option, none, some, List, [], ◌∷◌, ltb, ◌==◌, if◌then◌else◌,
  is_none, scalar, text_eq,
}
use buddy_web_ver.Errors.{runtime_error, Result, ok, err, ◌>>=◌}
use buddy_web_ver.Time.{Datetime, utc_now}
use buddy_web_ver.Text.{Text}
use buddy_web_ver.Models.Outbox.{TransactionalOutbox}
use buddy_web_ver.Db.{Session}
use buddy_web_ver.Outbox.Delay.{retry_delay}

abbrev pub max_delivery_attempts : ℕ
max_delivery_attempts = 5

-- `EmailDeliveryError(retryable, error_code)` and `EmailTemplateError(error_code)`.
pub data Failure : Type 0 where
  delivery_error : Bool → Text → Failure
  template_error : Text → Failure

-- The strings that `_finalize_delivery` returns.
pub data Delivery : Type 0 where
  sent retry failed skipped : Delivery

abbrev pub error_code : Failure → Text
error_code (delivery_error retryable code) = code
error_code (template_error code) = code

-- `isinstance(failure, EmailDeliveryError) and failure.retryable`
abbrev pub is_retryable : Failure → Bool
is_retryable (delivery_error retryable code) = retryable
is_retryable (template_error code) = false

abbrev pub owner_is : Text → Option Text → Bool
owner_is worker_id none = false
owner_is worker_id (some owner) = text_eq owner worker_id

-- The row is not deleted, not terminal, and leased to the worker.
abbrev pub is_held_by : Text → TransactionalOutbox → Bool
is_held_by worker_id row =
    is_none row.deleted_at
    && is_none row.sent_at
    && is_none row.failed_at
    && owner_is worker_id row.lease_owner

-- The assignments that every outcome makes.
abbrev pub released : ℕ → TransactionalOutbox → TransactionalOutbox
released now row = record row {
  attempts = suc row.attempts;
  lease_owner = none;
  lease_expires_at = none;
  updated_at = now;
}

abbrev pub record_failure : ℕ → Failure → TransactionalOutbox → Delivery × TransactionalOutbox
record_failure now failure row =
    if is_retryable failure && ltb row.attempts max_delivery_attempts
    then (
      retry,
      record row {
        last_error_code = some (error_code failure);
        next_attempt_at = now + retry_delay row.attempts;
      },
    )
    else (failed, record row { last_error_code = some (error_code failure); failed_at = some now })

unfoldable pub finalize_row :
    Option Text → Option Failure → ℕ → TransactionalOutbox → Result (Delivery × TransactionalOutbox)
unfolding retry_delay
finalize_row provider_message_id (some failure) now row =
    ok (record_failure now failure (released now row))
finalize_row none none now row = err runtime_error
finalize_row (some message_id) none now row = ok (
  sent,
  record (released now row) {
    sent_at = some now;
    provider_message_id = some message_id;
    last_error_code = none;
  },
)

abbrev pub put_outbox : TransactionalOutbox → List TransactionalOutbox → List TransactionalOutbox
put_outbox row [] = []
put_outbox row (other ∷ rows) = (if other.id == row.id then row else other) ∷ put_outbox row rows

-- The part after the row is found and held.
abbrev pub finalize_held :
    Option Text → Option Failure → Datetime → TransactionalOutbox → Session Delivery
finalize_held provider_message_id failure clock row db = do
  now ← utc_now clock
  (outcome, row') ← finalize_row provider_message_id failure now row
  ok (outcome, record db { outbox = put_outbox row' db.outbox })

abbrev pub finalize_found :
    Text → Option Text → Option Failure → Datetime → Option TransactionalOutbox → Session Delivery
finalize_found worker_id provider_message_id failure clock none db = ok (skipped, db)
finalize_found worker_id provider_message_id failure clock (some row) db =
    if is_held_by worker_id row
    then finalize_held provider_message_id failure clock row db
    else ok (skipped, db)

unfoldable pub finalize_delivery :
    ℕ → Text → Option Text → Option Failure → Datetime → Session Delivery
unfolding finalize_row
finalize_delivery outbox_id worker_id provider_message_id failure clock db =
    finalize_found worker_id provider_message_id failure clock
      (scalar (λ row. row.id == outbox_id) db.outbox) db
