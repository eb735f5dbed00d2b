-- ===== src/Chat/Reads.antt =====
-- Acknowledging messages (`acknowledge_buddy_messages_read`).
use buddy_web_ver.Base.{
  ℕ, ◌+◌, Bool, not, ◌&&◌, ◌||◌, Option, some, List, [], ◌∷◌, ltb, leb, ◌==◌, if◌then◌else◌,
  is_none, length, min, select, scalar, any,
}
use buddy_web_ver.Errors.{Exception, chat_read_error, BuddyChatReadReason, ok, or_raise}
use buddy_web_ver.Time.{Datetime, utc_now}
use buddy_web_ver.Models.Chat.{BuddyMessage, buddy_message_read_retention}
use buddy_web_ver.Db.{Db, Session, lift, read, ◌>>=◌}
use buddy_web_ver.Chat.Conversations.{is_open_to}

abbrev pub message_not_found : Exception
message_not_found = chat_read_error BuddyChatReadReason.message_not_found

pub record BuddyReadAcknowledgement : Type 0 where
  pub through_message_id : ℕ
  pub marked_read_count : ℕ

-- The message of the boundary, through the joins, for a participant.
abbrev pub boundary_of : ℕ → ℕ → ℕ → ℕ → Db → Option BuddyMessage
boundary_of conversation_id reader_id through_message_id now db =
    scalar
      (λ m.
        m.id == through_message_id
        && ltb now m.expires_at
        && m.conversation_id == conversation_id
        && any (λ c. c.id == conversation_id && is_open_to reader_id db.matches c) db.conversations)
      db.messages

-- The condition of the update: an unread message to the reader, not expired, up to the boundary.
abbrev pub is_marked : ℕ → ℕ → ℕ → BuddyMessage → BuddyMessage → Bool
is_marked conversation_id reader_id now boundary m =
    m.conversation_id == conversation_id
    && not (m.sender_id == reader_id)
    && is_none m.read_at
    && ltb now m.expires_at
    && (ltb m.created_at boundary.created_at
        || (m.created_at == boundary.created_at && leb m.id boundary.id))

abbrev pub mark_read : ℕ → BuddyMessage → BuddyMessage
mark_read now m = record m {
  read_at = some now;
  expires_at = min m.expires_at (now + buddy_message_read_retention);
}

abbrev pub mark_if : Bool → ℕ → BuddyMessage → BuddyMessage
mark_if marked now m = if marked then mark_read now m else m

-- The `UPDATE`, on the rows that meet its condition.
abbrev pub mark_rows : (BuddyMessage → Bool) → ℕ → List BuddyMessage → List BuddyMessage
mark_rows p now [] = []
mark_rows p now (m ∷ ms) = mark_if (p m) now m ∷ mark_rows p now ms

unfoldable pub acknowledge_buddy_messages_read :
    ℕ → ℕ → ℕ → Datetime → Session BuddyReadAcknowledgement
acknowledge_buddy_messages_read conversation_id reader_id through_message_id clock = do
  now ← lift (utc_now clock)
  boundary ← read (λ db.
      or_raise (boundary_of conversation_id reader_id through_message_id now db) message_not_found)
  λ db. ok (
    record {
      through_message_id = through_message_id;
      marked_read_count =
          length (select (is_marked conversation_id reader_id now boundary) db.messages);
    },
    record db {
      messages = mark_rows (is_marked conversation_id reader_id now boundary) now db.messages;
    },
  )
