-- ===== src/Outbox/Enqueue.antt =====
-- Enqueuing an event (`enqueue_transactional_email`).
use buddy_web_ver.Base.{ℕ, ◌||◌, ◌∷◌, ◌==◌, if◌then◌else◌, any, text_eq}
use buddy_web_ver.Errors.{unique_violation, ok, err}
use buddy_web_ver.Time.{Datetime}
use buddy_web_ver.Models.Outbox.{TransactionalOutbox}
use buddy_web_ver.Db.{Session, lift, pure, ◌>>=◌, ◌>>◌}
use buddy_web_ver.Outbox.Event.{EmailEvent, outbox_row}

-- The `INSERT` of an event: its key and its idempotency key must be new.
unfoldable pub insert_outbox : TransactionalOutbox → Session (Unit {0})
insert_outbox row db =
    if any (λ other. other.id == row.id || text_eq other.idempotency_key row.idempotency_key)
      db.outbox
    then err unique_violation
    else ok (tt, record db { outbox = row ∷ db.outbox })

unfoldable pub enqueue_transactional_email : ℕ → EmailEvent → Datetime → Session TransactionalOutbox
unfolding outbox_row
enqueue_transactional_email new_id event clock = do
  row ← lift (outbox_row new_id event clock)
  insert_outbox row
  pure row
