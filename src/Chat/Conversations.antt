-- ===== src/Chat/Conversations.antt =====
-- Who takes part in a conversation, and the one conversation of a match
-- (`_require_authorized_active_conversation`, `list_active_buddy_conversation_ids`,
-- `get_or_create_buddy_conversation`). A match is always ACTIVE.
use buddy_web_ver.Base.{
  ℕ, Bool, ◌&&◌, ◌||◌, Option, none, some, List, ◌∷◌, leb, ◌==◌, if◌then◌else◌, is_none, map,
  scalar, select, any, sort_by,
}
use buddy_web_ver.Errors.{
  Exception, active_match_required, chat_read_error, BuddyChatReadReason, unique_violation, Result,
  ok, err, or_raise,
}
use buddy_web_ver.Time.{Datetime, utc_now}
use buddy_web_ver.Models.Match.{BuddyMatch, BuddyConversation}
use buddy_web_ver.Db.{Db, Session, pure, lift, read, ◌>>=◌}

abbrev pub conversation_not_found : Exception
conversation_not_found = chat_read_error BuddyChatReadReason.conversation_not_found

abbrev pub takes_part : ℕ → BuddyMatch → Bool
takes_part user_id m = m.participant_one_user_id == user_id || m.participant_two_user_id == user_id

-- The join of a conversation with its live match, and the condition on the user.
abbrev pub is_open_to : ℕ → List BuddyMatch → BuddyConversation → Bool
is_open_to user_id matches c =
    any (λ m. m.id == c.match_id && is_none m.deleted_at && takes_part user_id m) matches

unfoldable pub require_authorized_active_conversation : ℕ → ℕ → Db → Result BuddyConversation
require_authorized_active_conversation conversation_id user_id db =
    or_raise
      (scalar (λ c. c.id == conversation_id && is_open_to user_id db.matches c) db.conversations)
      conversation_not_found

unfoldable pub list_active_buddy_conversation_ids : ℕ → Db → List ℕ
list_active_buddy_conversation_ids user_id db =
    sort_by leb (map (λ c. c.id) (select (is_open_to user_id db.matches) db.conversations))

abbrev pub of_match : ℕ → BuddyConversation → Bool
of_match match_id c = c.match_id == match_id

-- `INSERT … ON CONFLICT (match_id) DO NOTHING RETURNING`, under a new primary key.
unfoldable pub insert_conversation : BuddyConversation → Session (Option BuddyConversation)
insert_conversation c db =
    if any (of_match c.match_id) db.conversations
    then ok (none, db)
    else if any (λ other. other.id == c.id) db.conversations
    then err unique_violation
    else ok (some c, record db { conversations = c ∷ db.conversations })

-- The row of the statement, or the one that it ran into.
abbrev pub or_existing : ℕ → Option BuddyConversation → Session BuddyConversation
or_existing match_id (some c) = pure c
or_existing match_id none =
    read (λ db. or_raise (scalar (of_match match_id) db.conversations) active_match_required)

unfoldable pub get_or_create_buddy_conversation : ℕ → ℕ → Datetime → Session BuddyConversation
get_or_create_buddy_conversation new_id match_id clock = do
  m ← read (λ db.
      or_raise (scalar (λ m. m.id == match_id && is_none m.deleted_at) db.matches)
        active_match_required)
  created_at ← lift (utc_now clock)
  inserted ← insert_conversation (record {
    id = new_id;
    match_id = m.id;
    semester_id = m.semester_id;
    created_at = created_at;
  })
  or_existing m.id inserted
