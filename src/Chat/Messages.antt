-- ===== src/Chat/Messages.antt =====
-- Storing a message (`persist_buddy_message`, `send_buddy_message`). The key of a new row is an
-- argument.
use buddy_web_ver.Base.{
  ℕ, Bool, not, ◌&&◌, ◌||◌, Option, none, some, ◌∷◌, leb, ◌==◌, if◌then◌else◌, is_none, scalar, any,
  text_eq,
}
use buddy_web_ver.Errors.{
  Exception, message_error, BuddyMessagePersistenceReason, chat_read_error, unique_violation, ok,
  err, or_raise,
}
use buddy_web_ver.Time.{Datetime, aware, utc_now}
use buddy_web_ver.Text.{Text}
use buddy_web_ver.Models.Match.{BuddyMatch}
use buddy_web_ver.Models.Chat.{BuddyMessage, buddy_message_expires_at, validate_buddy_message_body}
use buddy_web_ver.Db.{Db, Session, pure, lift, guard, read, ◌>>=◌, ◌>>◌, map_error}
use buddy_web_ver.Chat.Conversations.{takes_part, require_authorized_active_conversation}

abbrev pub active_conversation_required : Exception
active_conversation_required =
    message_error BuddyMessagePersistenceReason.active_conversation_required

abbrev pub idempotency_key_reused : Exception
idempotency_key_reused = message_error BuddyMessagePersistenceReason.idempotency_key_reused

-- The rows of one sender and client key (`uq_buddy_messages_sender_id_client_message_id`).
abbrev pub has_key : ℕ → ℕ → BuddyMessage → Bool
has_key sender_id client_message_id m =
    m.sender_id == sender_id && m.client_message_id == client_message_id

-- The `INSERT` of a message: its key and its client key must be new.
unfoldable pub insert_message : BuddyMessage → Session (Unit {0})
insert_message m db =
    if any (λ other. other.id == m.id || has_key m.sender_id m.client_message_id other) db.messages
    then err unique_violation
    else ok (tt, record db { messages = m ∷ db.messages })

-- `INSERT … ON CONFLICT (sender_id, client_message_id) DO NOTHING RETURNING`
unfoldable pub insert_message_once : BuddyMessage → Session (Option BuddyMessage)
insert_message_once m db =
    if any (has_key m.sender_id m.client_message_id) db.messages
    then ok (none, db)
    else if any (λ other. other.id == m.id) db.messages
    then err unique_violation
    else ok (some m, record db { messages = m ∷ db.messages })

abbrev pub new_message : ℕ → ℕ → ℕ → ℕ → Text → ℕ → ℕ → BuddyMessage
new_message new_id conversation_id sender_id client_message_id body created_at expires_at = record {
  id = new_id;
  conversation_id = conversation_id;
  sender_id = sender_id;
  client_message_id = client_message_id;
  body = body;
  created_at = created_at;
  read_at = none;
  expires_at = expires_at;
}

-- The live match of a conversation, through the join.
abbrev pub match_of_conversation : ℕ → Db → Option BuddyMatch
match_of_conversation conversation_id db =
    scalar
      (λ m.
        any (λ c. c.id == conversation_id && c.match_id == m.id) db.conversations
        && is_none m.deleted_at)
      db.matches

unfoldable pub persist_buddy_message : ℕ → ℕ → ℕ → Text → ℕ → Datetime → Session BuddyMessage
persist_buddy_message new_id conversation_id sender_id body client_message_id clock = do
  validated ← lift (validate_buddy_message_body body)
  m ← read (λ db. or_raise (match_of_conversation conversation_id db) active_conversation_required)
  guard (not (takes_part sender_id m))
      (message_error BuddyMessagePersistenceReason.sender_not_participant)
  created_at ← lift (utc_now clock)
  expires_at ← lift (buddy_message_expires_at (aware created_at))
  let made =
      new_message new_id conversation_id sender_id client_message_id validated created_at expires_at
  insert_message made
  pure made

-- `except BuddyChatReadError`
abbrev pub required_if_unreadable : Exception → Exception
required_if_unreadable (chat_read_error reason) = active_conversation_required
required_if_unreadable e = e

-- The same message, not expired.
abbrev pub is_replay : ℕ → Text → ℕ → BuddyMessage → Bool
is_replay conversation_id body at existing =
    existing.conversation_id == conversation_id
    && text_eq existing.body body
    && not (leb existing.expires_at at)

abbrev pub replay : ℕ → Text → ℕ → Option BuddyMessage → Session BuddyMessage
replay conversation_id body at none = lift (err idempotency_key_reused)
replay conversation_id body at (some existing) =
    guard (not (is_replay conversation_id body at existing)) idempotency_key_reused >> pure existing

-- The row of the statement, or the one of an earlier attempt.
abbrev pub inserted_or_replay : ℕ → ℕ → ℕ → Text → ℕ → Option BuddyMessage → Session BuddyMessage
inserted_or_replay conversation_id sender_id client_message_id body at (some m) db = ok (m, db)
inserted_or_replay conversation_id sender_id client_message_id body at none db =
    replay conversation_id body at (scalar (has_key sender_id client_message_id) db.messages) db

-- The part under the conversation's authorization.
unfoldable pub send_authorized : ℕ → ℕ → ℕ → ℕ → Text → ℕ → Session BuddyMessage
send_authorized new_id conversation_id sender_id client_message_id body created_at = do
  expires_at ← lift (buddy_message_expires_at (aware created_at))
  inserted ←
      insert_message_once
        (new_message new_id conversation_id sender_id client_message_id body created_at expires_at)
  inserted_or_replay conversation_id sender_id client_message_id body created_at inserted

unfoldable pub send_buddy_message : ℕ → ℕ → ℕ → ℕ → Text → Datetime → Session BuddyMessage
send_buddy_message new_id conversation_id sender_id client_message_id body clock = do
  validated ← lift (validate_buddy_message_body body)
  map_error required_if_unreadable
      (read (require_authorized_active_conversation conversation_id sender_id))
  created_at ← lift (utc_now clock)
  send_authorized new_id conversation_id sender_id client_message_id validated created_at
