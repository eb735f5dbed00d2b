-- ===== src/Chat/Cleanup.antt =====
-- Deleting expired messages (apps/api/app/services/chat_cleanup.py, and the function
-- `cleanup_expired_buddy_messages` of the database). The time of the statement is an argument, and so
-- is which rows other transactions have locked.
use buddy_web_ver.Base.{
  ℕ, Bool, not, ◌&&◌, ◌||◌, Option, none, some, List, ltb, leb, ◌==◌, elem, length, map, select,
  sort_by, take,
}
use buddy_web_ver.Errors.{cleanup_validation, data_exception, Result, ok, err}
use buddy_web_ver.Time.{Datetime, naive, aware}
use buddy_web_ver.Models.Chat.{BuddyMessage}
use buddy_web_ver.Db.{Db, Session, pure, lift, guard, run, ◌>>=◌, ◌>>◌}

abbrev pub max_chat_cleanup_batch_size : ℕ
max_chat_cleanup_batch_size = 100

pub record ChatCleanupReport : Type 0 where
  pub selected : ℕ
  pub deleted : ℕ

-- `_utc_instant`
abbrev pub utc_instant : Datetime → Result ℕ
utc_instant (naive t) = err cleanup_validation
utc_instant (aware t) = ok t

-- The rows that may be taken: expired, and not locked.
abbrev pub may_delete : (ℕ → Bool) → ℕ → BuddyMessage → Bool
may_delete locked at m = leb m.expires_at at && not (locked m.id)

-- `ORDER BY expires_at, id`
abbrev pub expires_before : BuddyMessage → BuddyMessage → Bool
expires_before m other =
    ltb m.expires_at other.expires_at || (m.expires_at == other.expires_at && leb m.id other.id)

unfoldable pub due_messages : (ℕ → Bool) → ℕ → ℕ → List BuddyMessage → List BuddyMessage
due_messages locked batch_size at messages =
    take batch_size (sort_by expires_before (select (may_delete locked at) messages))

abbrev pub ids : List BuddyMessage → List ℕ
ids = map (λ m. m.id)

-- The `DELETE`, by primary keys.
abbrev pub without : List ℕ → List BuddyMessage → List BuddyMessage
without keys = select (λ m. not (elem m.id keys))

-- The function of the database.
unfoldable pub cleanup_expired_buddy_messages : (ℕ → Bool) → ℕ → ℕ → ℕ → Session (List ℕ)
cleanup_expired_buddy_messages locked batch_size at statement_timestamp = do
  guard (not (leb 1 batch_size && leb batch_size 100)) data_exception
  guard (ltb statement_timestamp at) data_exception
  λ db.
      let keys = ids (due_messages locked batch_size at db.messages) in
      ok (keys, record db { messages = without keys db.messages })

abbrev pub cleanup_time : Option Datetime → ℕ → Result ℕ
cleanup_time none statement_timestamp = ok statement_timestamp
cleanup_time (some cleanup_now) statement_timestamp = utc_instant cleanup_now

unfoldable pub cleanup_expired_buddy_message_batch :
    (ℕ → Bool) → ℕ → Option Datetime → ℕ → Session (List ℕ)
cleanup_expired_buddy_message_batch locked batch_size cleanup_now statement_timestamp = do
  guard (not (leb 1 batch_size && leb batch_size max_chat_cleanup_batch_size)) cleanup_validation
  at ← lift (cleanup_time cleanup_now statement_timestamp)
  cleanup_expired_buddy_messages locked batch_size at statement_timestamp

-- The transaction around it, with its report.
unfoldable pub process_chat_cleanup_batch :
    (ℕ → Bool) → ℕ → Option Datetime → ℕ → Db → Result ChatCleanupReport × Db
process_chat_cleanup_batch locked batch_size cleanup_now statement_timestamp = run do
  deleted_ids ←
      cleanup_expired_buddy_message_batch locked batch_size cleanup_now statement_timestamp
  pure (record { selected = length deleted_ids; deleted = length deleted_ids })
