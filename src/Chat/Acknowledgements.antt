-- ===== src/Chat/Acknowledgements.antt =====
-- Guarantees of an acknowledgement that succeeds.
use buddy_web_ver.Base.{
  ℕ, ◌+◌, ◌≤◌, ◌≡◌, refl, ◌∙◌, Bool, true, false, ◌&&◌, some, List, [], ltb, ◌==◌, arith, length,
  select, any, All,
}
use buddy_web_ver.Errors.{ok}
use buddy_web_ver.Time.{Datetime, utc_now, aware}
use buddy_web_ver.Models.Chat.{BuddyMessage}
use buddy_web_ver.Db.{Db, lift, read, ◌>>=◌}
use buddy_web_ver.Chat.Conversations.{is_open_to}
use buddy_web_ver.Chat.Reads.{
  BuddyReadAcknowledgement, boundary_of, is_marked, mark_read, mark_if, mark_rows,
  acknowledge_buddy_messages_read,
}
use buddy_web_ver.Chat.Unread.{is_unread}
use buddy_web_ver.Chat.Replays.{MessagesStored}
use buddy_web_ver.Chat.Marks.{
  acknowledged, unread_left, none_left, mark-OneMessageEach, mark-retained, marked_unread,
  scalar-mark_rows, unmarked_same,
}

-- Marking moves a message neither in the order nor out of the boundary's condition.
marked_same :
    (conversation_id reader_id now : ℕ) (b : BuddyMessage) (marked : Bool) (ms : List BuddyMessage)
    → select (is_marked conversation_id reader_id now (mark_if marked now b)) ms
      ≡ select (is_marked conversation_id reader_id now b) ms
marked_same conversation_id reader_id now b true ms = refl
marked_same conversation_id reader_id now b false ms = refl

still_effective :
    (now : ℕ) (m : BuddyMessage) → ltb now (mark_read now m).expires_at ≡ ltb now m.expires_at
still_effective now m = ground arith

boundary_again :
    (conversation_id reader_id through_message_id now : ℕ) (p : BuddyMessage → Bool) (db : Db)
    (b : BuddyMessage)
    → boundary_of conversation_id reader_id through_message_id now db ≡ some b
    → boundary_of conversation_id reader_id through_message_id now
        (record db { messages = mark_rows p now db.messages })
      ≡ some (mark_if (p b) now b)
boundary_again conversation_id reader_id through_message_id now p db b h =
    scalar-mark_rows conversation_id reader_id now b
      (λ m.
        m.id == through_message_id
        && ltb now m.expires_at
        && m.conversation_id == conversation_id
        && any (λ c. c.id == conversation_id && is_open_to reader_id db.matches c) db.conversations)
      p db.messages b (λ m. rw (still_effective now m) refl) h

-- An acknowledgement, from its boundary.
acknowledges :
    (conversation_id reader_id through_message_id now : ℕ) (clock : Datetime) (db : Db)
    (b : BuddyMessage)
    → utc_now clock ≡ ok now
    → boundary_of conversation_id reader_id through_message_id now db ≡ some b
    → acknowledge_buddy_messages_read conversation_id reader_id through_message_id clock db
      ≡ ok (
        record {
          through_message_id = through_message_id;
          marked_read_count =
              length (select (is_marked conversation_id reader_id now b) db.messages);
        },
        record db {
          messages = mark_rows (is_marked conversation_id reader_id now b) now db.messages;
        },
      )
unfolding acknowledge_buddy_messages_read
acknowledges conversation_id reader_id through_message_id now clock db b is_now found =
    rw (is_now, ◌>>=◌, lift, read, found) refl

module _ (conversation_id reader_id through_message_id : ℕ) (clock : Datetime) (db db' : Db)
    (a : BuddyReadAcknowledgement)
    (h : acknowledge_buddy_messages_read conversation_id reader_id through_message_id clock db
      ≡ ok (a, db')) where
  -- An acknowledgement that succeeds counts what it marks: with the number that it reports, the
  -- unread messages left to the reader in the conversation are as many as there were; none is left
  -- up to the boundary, which is an effective message of the conversation; and nothing but messages
  -- is written.
  pub acknowledge_counts :
      (now : ℕ) × (boundary : BuddyMessage) × (utc_now clock ≡ ok now)
      × (boundary_of conversation_id reader_id through_message_id now db ≡ some boundary)
      × (length (select (is_unread conversation_id reader_id now) db'.messages)
            + a.marked_read_count
          ≡ length (select (is_unread conversation_id reader_id now) db.messages))
      × (select (is_marked conversation_id reader_id now boundary) db'.messages ≡ [])
      × (db' ≡ record db { messages = db'.messages })
  acknowledge_counts =
      let (now, is_now, w) =
        acknowledged conversation_id reader_id through_message_id clock db db' a h in
      (
        now,
        w.boundary,
        is_now,
        w.is_boundary,
        rw (w.wrote, w.counted) (unread_left conversation_id reader_id now w.boundary db.messages),
        rw w.wrote (none_left conversation_id reader_id now w.boundary db.messages),
        rw w.wrote refl,
      )

  -- An acknowledgement that succeeds keeps the unique keys and the retention constraint of the
  -- messages, if none of them was created after its time.
  pub acknowledge-MessagesStored :
      (now : ℕ)
      → clock ≡ aware now
      → All (λ (m : BuddyMessage). m.created_at ≤ now) db.messages
      → MessagesStored db.messages
      → MessagesStored db'.messages
  acknowledge-MessagesStored now' is_clock past s =
      let (now, is_now, w) =
        acknowledged conversation_id reader_id through_message_id clock db db' a h in
      let at : now' ≡ now = ground arith in
      let marked = is_marked conversation_id reader_id now w.boundary in
      rw w.wrote (record {
        one_each =
            mark-OneMessageEach conversation_id reader_id now w.boundary marked db.messages
              s.one_each;
        retained =
            mark-retained conversation_id reader_id now w.boundary marked db.messages
              (marked_unread conversation_id reader_id now w.boundary) (rw at at past) s.retained;
      })

  -- An acknowledgement that succeeded can be repeated at the same time: it marks no message and
  -- changes nothing.
  pub acknowledge_twice :
      acknowledge_buddy_messages_read conversation_id reader_id through_message_id clock db'
      ≡ ok (record { through_message_id = through_message_id; marked_read_count = 0 }, db')
  acknowledge_twice =
      let (now, is_now, w) =
        acknowledged conversation_id reader_id through_message_id clock db db' a h in
      let marked = is_marked conversation_id reader_id now w.boundary in
      let b = mark_if (marked w.boundary) now w.boundary in
      let found : boundary_of conversation_id reader_id through_message_id now db' ≡ some b =
        rw w.wrote (
          boundary_again conversation_id reader_id through_message_id now marked db w.boundary
            w.is_boundary) in
      let none_marked : select (is_marked conversation_id reader_id now b) db'.messages ≡ [] =
        marked_same conversation_id reader_id now w.boundary (marked w.boundary) db'.messages
        ∙ rw w.wrote (none_left conversation_id reader_id now w.boundary db.messages) in
      let same =
        unmarked_same conversation_id reader_id now b (is_marked conversation_id reader_id now b)
          db'.messages none_marked in
      acknowledges conversation_id reader_id through_message_id now clock db' b is_now found
      ∙ rw (none_marked, same) refl
