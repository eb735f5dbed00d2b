-- ===== src/Chat/Marks.antt =====
-- What an acknowledgement leaves.
use buddy_web_ver.Base.{
  ℕ, ◌+◌, ◌≤◌, ◌≡◌, refl, ◌∙◌, inl, inr, Bool, true, none, some, List, [], ◌∷◌, ◌==◌, arith, length,
  select, scalar, any, All, Bool-cases,
}
use buddy_web_ver.Errors.{Result, ok, or_raise, or_raise_inv}
use buddy_web_ver.Time.{Datetime, utc_now}
use buddy_web_ver.Models.Chat.{BuddyMessage, retention_timestamps}
use buddy_web_ver.Db.{Db, Session, read, lift_then, read_then, ◌>>=◌}
use buddy_web_ver.Chat.Messages.{has_key}
use buddy_web_ver.Chat.Reads.{
  BuddyReadAcknowledgement, boundary_of, is_marked, mark_read, mark_if, mark_rows,
  message_not_found, acknowledge_buddy_messages_read,
}
use buddy_web_ver.Chat.Unread.{is_unread}
use buddy_web_ver.Chat.Replays.{OneMessageEach}

-- The steps of an acknowledgement that succeeded.
pub record Acknowledged (conversation_id reader_id through_message_id now : ℕ) (db db' : Db)
    (a : BuddyReadAcknowledgement) : Type 0 where
  pub boundary : BuddyMessage
  pub is_boundary : boundary_of conversation_id reader_id through_message_id now db ≡ some boundary
  pub through : a.through_message_id ≡ through_message_id
  pub counted :
      a.marked_read_count
      ≡ length (select (is_marked conversation_id reader_id now boundary) db.messages)
  pub wrote : db' ≡ record db {
    messages = mark_rows (is_marked conversation_id reader_id now boundary) now db.messages;
  }

module _ (conversation_id reader_id through_message_id : ℕ) (clock : Datetime) (db db' : Db)
    (a : BuddyReadAcknowledgement)
    (h : acknowledge_buddy_messages_read conversation_id reader_id through_message_id clock db
      ≡ ok (a, db')) where
  pub acknowledged :
      (now : ℕ) × (utc_now clock ≡ ok now)
      × Acknowledged conversation_id reader_id through_message_id now db db' a
  unfolding acknowledge_buddy_messages_read
  acknowledged =
      let write : ℕ → BuddyMessage → Session BuddyReadAcknowledgement = λ now boundary db. ok (
        record {
          through_message_id = through_message_id;
          marked_read_count =
              length (select (is_marked conversation_id reader_id now boundary) db.messages);
        },
        record db {
          messages = mark_rows (is_marked conversation_id reader_id now boundary) now db.messages;
        },
      ) in
      let find : ℕ → Db → Result BuddyMessage = λ now db.
        or_raise (boundary_of conversation_id reader_id through_message_id now db)
          message_not_found in
      let (now, is_now, h1) =
        lift_then (utc_now clock) (λ now. read (find now) >>= write now) db db' a h in
      let (boundary, found, h2) = read_then (find now) (write now) db db' a h1 in
      (
        now,
        is_now,
        record {
          boundary = boundary;
          is_boundary = or_raise_inv _ message_not_found boundary found;
          through = ground arith;
          counted = ground arith;
          wrote = ground arith;
        },
      )

module _ (conversation_id reader_id now : ℕ) (boundary : BuddyMessage) where
  -- Each marked message is one unread message less.
  pub unread_left :
      (ms : List BuddyMessage)
      → length (
            select
              (is_unread conversation_id reader_id now)
              (mark_rows (is_marked conversation_id reader_id now boundary) now ms))
          + length (select (is_marked conversation_id reader_id now boundary) ms)
        ≡ length (select (is_unread conversation_id reader_id now) ms)
  unread_left [] = omega arith
  unread_left (m ∷ ms) = ground (arith, unread_left ms)

  pub none_left :
      (ms : List BuddyMessage)
      → select
          (is_marked conversation_id reader_id now boundary)
          (mark_rows (is_marked conversation_id reader_id now boundary) now ms)
        ≡ []
  none_left [] = refl
  none_left (m ∷ ms) = ground (arith, none_left ms)

  -- Marking changes no key, no sender and no conversation.
  any-mark_rows :
      (q : BuddyMessage → Bool) (p : BuddyMessage → Bool) (ms : List BuddyMessage)
      → ((m : BuddyMessage) → q (mark_read now m) ≡ q m)
      → any q (mark_rows p now ms) ≡ any q ms
  any-mark_rows q p [] h = refl
  any-mark_rows q p (m ∷ ms) h = ground (arith, h m, any-mark_rows q p ms h)

  pub mark-OneMessageEach :
      (p : BuddyMessage → Bool) (ms : List BuddyMessage)
      → OneMessageEach ms
      → OneMessageEach (mark_rows p now ms)
  mark-OneMessageEach p [] h = tt
  mark-OneMessageEach p (m ∷ ms) (by_id, by_key, rest) =
      let ids = any-mark_rows (λ other. other.id == m.id) p ms (λ o. refl) in
      let keys = any-mark_rows (has_key m.sender_id m.client_message_id) p ms (λ o. refl) in
      elim (Bool-cases (p m)) [
        | inl e ↦ rw e (ids ∙ by_id, keys ∙ by_key, mark-OneMessageEach p ms rest)
        | inr e ↦ rw e (ids ∙ by_id, keys ∙ by_key, mark-OneMessageEach p ms rest)
      ]

  pub mark-retained :
      (p : BuddyMessage → Bool) (ms : List BuddyMessage)
      → ((m : BuddyMessage) → p m ≡ true → m.read_at ≡ none)
      → All (λ (m : BuddyMessage). m.created_at ≤ now) ms
      → All (λ (m : BuddyMessage). retention_timestamps m ≡ true) ms
      → All (λ (m : BuddyMessage). retention_timestamps m ≡ true) (mark_rows p now ms)
  mark-retained p [] unread past h = tt
  mark-retained p (m ∷ ms) unread past h = elim (Bool-cases (p m)) [
    | inl e ↦ rw e (marked m (unread m e) past.0 h.0, mark-retained p ms unread past.1 h.1)
    | inr e ↦ rw e (h.0, mark-retained p ms unread past.1 h.1)
  ]
    where
      marked :
          (m : BuddyMessage)
          → m.read_at ≡ none
          → m.created_at ≤ now
          → retention_timestamps m ≡ true
          → retention_timestamps (mark_read now m) ≡ true
      marked m u past kept = ground arith

  pub marked_unread :
      (m : BuddyMessage)
      → is_marked conversation_id reader_id now boundary m ≡ true
      → m.read_at ≡ none
  marked_unread m h = ground arith

  -- The boundary of a repetition is the same message.
  pub scalar-mark_rows :
      (q p : BuddyMessage → Bool) (ms : List BuddyMessage) (b : BuddyMessage)
      → ((m : BuddyMessage) → q (mark_read now m) ≡ q m)
      → scalar q ms ≡ some b
      → scalar q (mark_rows p now ms) ≡ some (mark_if (p b) now b)
  scalar-mark_rows q p [] b h found = ground arith
  scalar-mark_rows q p (m ∷ ms) b h found = ground (arith, h m, scalar-mark_rows q p ms b h)

  pub unmarked_same :
      (p : BuddyMessage → Bool) (ms : List BuddyMessage)
      → select p ms ≡ []
      → mark_rows p now ms ≡ ms
  unmarked_same p [] h = refl
  unmarked_same p (m ∷ ms) h = ground (arith, unmarked_same p ms)
