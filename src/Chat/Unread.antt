-- ===== src/Chat/Unread.antt =====
-- Counting unread messages (`get_buddy_unread_summary`).
use buddy_web_ver.Base.{
  ℕ, ◌+◌, Bool, not, ◌&&◌, List, [], ◌∷◌, ltb, leb, ◌==◌, if◌then◌else◌, is_none, length, map,
  select, sort_by,
}
use buddy_web_ver.Errors.{Result, ok, ◌>>=◌}
use buddy_web_ver.Time.{Datetime, utc_now}
use buddy_web_ver.Models.Chat.{BuddyMessage}
use buddy_web_ver.Db.{Db}
use buddy_web_ver.Chat.Conversations.{is_open_to}

pub record BuddyUnreadConversation : Type 0 where
  pub conversation_id : ℕ
  pub unread_count : ℕ

pub record BuddyUnreadSummary : Type 0 where
  pub conversations : List BuddyUnreadConversation
  pub total_unread_messages : ℕ

-- The unread messages to a user in one conversation.
abbrev pub is_unread : ℕ → ℕ → ℕ → BuddyMessage → Bool
is_unread conversation_id user_id now m =
    m.conversation_id == conversation_id
    && not (m.sender_id == user_id)
    && is_none m.read_at
    && ltb now m.expires_at

-- `GROUP BY`: a conversation without such a message has no row.
abbrev pub unread_groups : ℕ → ℕ → List BuddyMessage → List ℕ → List BuddyUnreadConversation
unread_groups user_id now messages [] = []
unread_groups user_id now messages (id ∷ ids) =
    let n = length (select (is_unread id user_id now) messages) in
    let rest = unread_groups user_id now messages ids in
    if n == 0 then rest else record { conversation_id = id; unread_count = n } ∷ rest

abbrev pub sum_unread : List BuddyUnreadConversation → ℕ
sum_unread [] = 0
sum_unread (c ∷ cs) = c.unread_count + sum_unread cs

unfoldable pub get_buddy_unread_summary : ℕ → Datetime → Db → Result BuddyUnreadSummary
get_buddy_unread_summary user_id clock db = do
  now ← utc_now clock
  let conversations =
      unread_groups user_id now db.messages
        (sort_by leb (map (λ c. c.id) (select (is_open_to user_id db.matches) db.conversations)))
  ok (record { conversations = conversations; total_unread_messages = sum_unread conversations })
