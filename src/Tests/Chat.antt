-- ===== src/Tests/Chat.antt =====
-- A conversation of three messages, runs of the chat on it, and the theorems applied to them.
use buddy_web_ver.Base.{
  List, false, not, ℕ, ◌+◌, ◌≤◌, ◌≡◌, ◌⊎◌, refl, Option, none, some, [], ◌∷◌, arith, length, select,
}
use buddy_web_ver.Errors.{ok}
use buddy_web_ver.Time.{aware, utc_now}
use buddy_web_ver.Text.{codes, strip}
use buddy_web_ver.Models.Match.{BuddyMatch, BuddyConversation, active}
use buddy_web_ver.Models.Chat.{
  BuddyMessage, buddy_message_max_retention, buddy_message_expires_at, validate_buddy_message_body,
}
use buddy_web_ver.Db.{Db}
use buddy_web_ver.Chat.Cursor.{
  encode_buddy_message_cursor, decode_buddy_message_cursor, decode-encode_cursor,
}
use buddy_web_ver.Chat.Conversations.{require_authorized_active_conversation}
use buddy_web_ver.Chat.Messages.{send_buddy_message, send_authorized, insert_message_once}
use buddy_web_ver.Chat.History.{
  BuddyMessagePage, newest_first, page_of, decode_before, list_buddy_messages,
}
use buddy_web_ver.Chat.Reads.{
  BuddyReadAcknowledgement, boundary_of, is_marked, acknowledge_buddy_messages_read,
}
use buddy_web_ver.Chat.Unread.{is_unread}
use buddy_web_ver.Chat.Pages.{Follows, pages_follow}
use buddy_web_ver.Chat.Replays.{MessagesStored, send_twice, send-MessagesStored}
use buddy_web_ver.Chat.Acknowledgements.{acknowledge_counts, acknowledge-MessagesStored}
use buddy_web_ver.Chat.Cleanup.{may_delete, cleanup_expired_buddy_messages}
use buddy_web_ver.Chat.Drained.{cleanup_drains}
use buddy_web_ver.Tests.Data.{empty_db}

abbrev pair_match : BuddyMatch
pair_match = record {
  id = 71;
  participant_one_user_id = 1;
  participant_two_user_id = 2;
  participant_one_profile_id = 11;
  participant_two_profile_id = 12;
  status = active;
  accepted_invitation_id = 7;
  semester_id = 5;
  score = 88;
  activated_at = 500;
  deleted_at = none;
}

abbrev talk : BuddyConversation
talk = record { id = 81; match_id = 71; semester_id = 5; created_at = 500 }

-- A message from a user at an instant, under a key that is its client key as well.
abbrev said : ℕ → ℕ → ℕ → BuddyMessage
said id sender_id at = record {
  id = id;
  conversation_id = 81;
  sender_id = sender_id;
  client_message_id = id;
  body = codes "hey";
  created_at = at;
  read_at = none;
  expires_at = at + buddy_message_max_retention;
}

abbrev chat : Db
chat = record empty_db {
  matches = pair_match ∷ [];
  conversations = talk ∷ [];
  messages = said 93 2 3000 ∷ said 92 1 2000 ∷ said 91 1 1000 ∷ [];
}

abbrev chat_sent : Db
chat_sent = record chat { messages = said 94 1 4000 ∷ chat.messages }

send_runs :
    send_buddy_message 94 81 1 94 (codes "hey") (aware 4000) chat ≡ ok (said 94 1 4000, chat_sent)
unfolding send_buddy_message send_authorized insert_message_once validate_buddy_message_body
    buddy_message_expires_at require_authorized_active_conversation strip
send_runs = refl

chat-MessagesStored : MessagesStored chat.messages
chat-MessagesStored = record {
  one_each = (refl, refl, (refl, refl, (refl, refl, tt)));
  retained = (refl, (refl, (refl, tt)));
}

decode-encode_cursor_example :
    decode_buddy_message_cursor (encode_buddy_message_cursor 2000 92) ≡ ok (2000, 92)
decode-encode_cursor_example = decode-encode_cursor 2000 92 (omega arith) (omega arith)

send_twice_example :
    send_buddy_message 95 81 1 94 (codes "hey") (aware 5000) chat_sent
    ≡ ok (said 94 1 4000, chat_sent)
send_twice_example =
    send_twice 94 81 1 94 (codes "hey") (aware 4000) chat chat_sent (said 94 1 4000) send_runs 95
      5000 (omega arith)

send-MessagesStored_example :
    MessagesStored chat_sent.messages
    × ((chat_sent ≡ chat) ⊎ (chat_sent ≡ record chat { messages = said 94 1 4000 ∷ chat.messages }))
send-MessagesStored_example =
    send-MessagesStored 94 81 1 94 (codes "hey") (aware 4000) chat chat_sent (said 94 1 4000)
      send_runs chat-MessagesStored

abbrev first_page : BuddyMessagePage
first_page = record {
  items = said 92 1 2000 ∷ said 93 2 3000 ∷ [];
  next_before = some (encode_buddy_message_cursor 2000 92);
}

page_runs : list_buddy_messages 81 2 none 2 (aware 4000) chat ≡ ok first_page
unfolding list_buddy_messages newest_first page_of require_authorized_active_conversation
page_runs = refl

pages_follow_example :
    (now : ℕ) × (position : Option (ℕ × ℕ)) × (utc_now (aware 4000) ≡ ok now)
    × (decode_before none ≡ ok position)
    × (length first_page.items ≤ 2)
    × Follows 81 now position chat.messages first_page
pages_follow_example =
    pages_follow 81 2 2 none (aware 4000) chat first_page page_runs
      ((refl, (refl, tt)), ((refl, tt), (tt, tt)))
      ((omega arith, omega arith), ((omega arith, omega arith), ((omega arith, omega arith), tt)))

-- User 2 reads up to the second message.
abbrev read_of : ℕ → ℕ → BuddyMessage
read_of id at = record (said id 1 at) { read_at = some 4000; expires_at = 2_592_000_004_000 }

abbrev chat_read : Db
chat_read = record chat { messages = said 93 2 3000 ∷ read_of 92 2000 ∷ read_of 91 1000 ∷ [] }

abbrev two_read : BuddyReadAcknowledgement
two_read = record { through_message_id = 92; marked_read_count = 2 }

read_runs : acknowledge_buddy_messages_read 81 2 92 (aware 4000) chat ≡ ok (two_read, chat_read)
unfolding acknowledge_buddy_messages_read
read_runs = refl

acknowledge_counts_example :
    (now : ℕ) × (boundary : BuddyMessage) × (utc_now (aware 4000) ≡ ok now)
    × (boundary_of 81 2 92 now chat ≡ some boundary)
    × (length (select (is_unread 81 2 now) chat_read.messages) + 2
        ≡ length (select (is_unread 81 2 now) chat.messages))
    × (select (is_marked 81 2 now boundary) chat_read.messages ≡ [])
    × (chat_read ≡ record chat { messages = chat_read.messages })
acknowledge_counts_example =
    acknowledge_counts 81 2 92 (aware 4000) chat chat_read two_read read_runs

acknowledge-MessagesStored_example : MessagesStored chat_read.messages
acknowledge-MessagesStored_example =
    acknowledge-MessagesStored 81 2 92 (aware 4000) chat chat_read two_read read_runs 4000 refl
      (omega arith, (omega arith, (omega arith, tt))) chat-MessagesStored

-- One message has expired, and no row is locked.
cleanup_drains_example :
    (deleted : List ℕ) × (db' : Db) × (cleanup_expired_buddy_messages
        (λ _. false)
        2
        7_776_000_001_500
        7_776_000_009_000
        chat
      ≡ ok (deleted, db'))
    × (length deleted ≡ 1)
    × (select (λ m. not (may_delete (λ _. false) 7_776_000_001_500 m)) db'.messages
        ≡ said 93 2 3000 ∷ said 92 1 2000 ∷ [])
    × (1 ≤ 2 → select (may_delete (λ _. false) 7_776_000_001_500) db'.messages ≡ [])
    × (db' ≡ record chat { messages = db'.messages })
cleanup_drains_example =
    cleanup_drains (λ _. false) 2 7_776_000_001_500 7_776_000_009_000 chat (omega arith)
      (omega arith) (omega arith) ((refl, (refl, tt)), ((refl, tt), (tt, tt)))
