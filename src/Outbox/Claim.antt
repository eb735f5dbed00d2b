-- ===== src/Outbox/Claim.antt =====
-- Claiming a batch of events (`claim_transactional_outbox`).
use buddy_web_ver.Base.{
  ℕ, ◌+◌, ◌*◌, Bool, true, not, ◌&&◌, ◌||◌, Option, none, some, List, [], ◌∷◌, map, ltb, leb, ◌==◌,
  if◌then◌else◌, is_none, take, select, elem, sort_by,
}
use buddy_web_ver.Errors.{outbox_validation, ok}
use buddy_web_ver.Time.{Datetime, utc_now, minute}
use buddy_web_ver.Text.{Text}
use buddy_web_ver.Models.Outbox.{TransactionalOutbox}
use buddy_web_ver.Db.{Session, lift, guard, query, ◌>>=◌, ◌>>◌}
use buddy_web_ver.Outbox.Event.{validate_identifier}

abbrev pub outbox_lease_ttl : ℕ
outbox_lease_ttl = 5 * minute

abbrev pub max_outbox_batch_size : ℕ
max_outbox_batch_size = 100

-- `lease_expires_at IS NULL OR lease_expires_at <= now`
abbrev pub lease_is_free : ℕ → Option ℕ → Bool
lease_is_free now none = true
lease_is_free now (some expires_at) = leb expires_at now

-- The condition of the query for a batch.
abbrev pub is_ready : ℕ → TransactionalOutbox → Bool
is_ready now row =
    is_none row.deleted_at
    && is_none row.sent_at
    && is_none row.failed_at
    && leb row.next_attempt_at now
    && lease_is_free now row.lease_expires_at

-- `ORDER BY next_attempt_at, id`
abbrev pub attempted_before : TransactionalOutbox → TransactionalOutbox → Bool
attempted_before row other =
    ltb row.next_attempt_at other.next_attempt_at
    || (row.next_attempt_at == other.next_attempt_at && leb row.id other.id)

-- The rows of a batch; `locked` marks those that another transaction holds, which are skipped.
unfoldable pub ready_rows : (ℕ → Bool) → ℕ → ℕ → List TransactionalOutbox → List TransactionalOutbox
ready_rows locked batch_size now rows =
    take batch_size
      (sort_by attempted_before (select (λ row. is_ready now row && not (locked row.id)) rows))

-- The assignments to a claimed row.
abbrev pub lease_row : Text → ℕ → TransactionalOutbox → TransactionalOutbox
lease_row worker_id now row = record row {
  lease_owner = some worker_id;
  lease_expires_at = some (now + outbox_lease_ttl);
  updated_at = now;
}

abbrev pub lease_if : Bool → Text → ℕ → TransactionalOutbox → TransactionalOutbox
lease_if claimed worker_id now row = if claimed then lease_row worker_id now row else row

-- The `UPDATE` of the claimed rows, by their keys.
abbrev pub lease_rows : List ℕ → Text → ℕ → List TransactionalOutbox → List TransactionalOutbox
lease_rows ids worker_id now [] = []
lease_rows ids worker_id now (row ∷ rows) =
    lease_if (elem row.id ids) worker_id now row ∷ lease_rows ids worker_id now rows

unfoldable pub claim_transactional_outbox : (ℕ → Bool) → Text → ℕ → Datetime → Session (List ℕ)
claim_transactional_outbox locked worker_id batch_size clock = do
  normalized ← lift (validate_identifier 100 worker_id)
  guard (not (leb 1 batch_size && leb batch_size max_outbox_batch_size)) outbox_validation
  now ← lift (utc_now clock)
  rows ← query (λ db. ready_rows locked batch_size now db.outbox)
  let ids = map (λ row. row.id) rows
  λ db. ok (ids, record db { outbox = lease_rows ids normalized now db.outbox })
