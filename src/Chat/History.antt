-- ===== src/Chat/History.antt =====
-- Reading a conversation page by page (`list_buddy_messages`, `get_realtime_buddy_message`).
use buddy_web_ver.Base.{
  ℕ, ◌+◌, Bool, true, not, ◌&&◌, ◌||◌, Option, none, some, List, [], ◌∷◌, ltb, leb, ◌==◌,
  if◌then◌else◌, length, take, select, scalar, sort_by,
}
use buddy_web_ver.Errors.{value_error, Complaint, Result, ok, ◌>>=◌, ◌>>◌, raise_if}
use buddy_web_ver.Time.{Datetime, utc_now}
use buddy_web_ver.Text.{Text}
use buddy_web_ver.Models.Chat.{BuddyMessage}
use buddy_web_ver.Db.{Db}
use buddy_web_ver.Chat.Conversations.{require_authorized_active_conversation}
use buddy_web_ver.Chat.Cursor.{encode_buddy_message_cursor, decode_buddy_message_cursor}

abbrev pub max_chat_message_page_size : ℕ
max_chat_message_page_size = 100

pub record BuddyMessagePage : Type 0 where
  pub items : List BuddyMessage
  pub next_before : Option Text

-- The messages of a conversation that have not expired.
abbrev pub is_effective : ℕ → ℕ → BuddyMessage → Bool
is_effective conversation_id now m = m.conversation_id == conversation_id && ltb now m.expires_at

-- Older than a position in the order of timestamp and key.
abbrev pub is_older : ℕ × ℕ → BuddyMessage → Bool
is_older (created_at, id) m =
    ltb m.created_at created_at || (m.created_at == created_at && ltb m.id id)

abbrev pub is_before : Option (ℕ × ℕ) → BuddyMessage → Bool
is_before none m = true
is_before (some position) m = is_older position m

-- `ORDER BY created_at DESC, id DESC`
abbrev pub newer : BuddyMessage → BuddyMessage → Bool
newer m other = is_older (m.created_at, m.id) other

-- The rows of the statement without its limit.
unfoldable pub newest_first : ℕ → ℕ → Option (ℕ × ℕ) → List BuddyMessage → List BuddyMessage
newest_first conversation_id now before messages =
    sort_by newer (select (λ m. is_effective conversation_id now m && is_before before m) messages)

-- `tuple(reversed(values))`
abbrev pub reversed_onto {ℓ} : {A : Type ℓ} → List A → List A → List A
reversed_onto [] rest = rest
reversed_onto (x ∷ xs) rest = reversed_onto xs (x ∷ rest)

abbrev pub reversed {ℓ} : {A : Type ℓ} → List A → List A
reversed xs = reversed_onto xs []

-- `values[-1]`, if there is one.
abbrev pub last {ℓ} : {A : Type ℓ} → List A → Option A
last [] = none
last (x ∷ []) = some x
last (x ∷ y ∷ rest) = last (y ∷ rest)

abbrev pub cursor_of : Option BuddyMessage → Option Text
cursor_of none = none
cursor_of (some m) = some (encode_buddy_message_cursor m.created_at m.id)

-- A page from at most one row more than it holds.
unfoldable pub page_of : ℕ → List BuddyMessage → BuddyMessagePage
page_of page_size rows = record {
  items = reversed (take page_size rows);
  next_before =
      if ltb page_size (length rows) then cursor_of (last (take page_size rows)) else none;
}

abbrev pub decode_before : Option Text → Result (Option (ℕ × ℕ))
decode_before none = ok none
decode_before (some cursor) = do position ← decode_buddy_message_cursor cursor; ok (some position)

unfoldable pub list_buddy_messages :
    ℕ → ℕ → Option Text → ℕ → Datetime → Db → Result BuddyMessagePage
list_buddy_messages conversation_id user_id before page_size clock db = do
  raise_if (not (leb 1 page_size && leb page_size max_chat_message_page_size))
      (value_error Complaint.page_size_out_of_range)
  require_authorized_active_conversation conversation_id user_id db
  now ← utc_now clock
  position ← decode_before before
  ok (
      page_of page_size
        (take (page_size + 1) (newest_first conversation_id now position db.messages)))

unfoldable pub get_realtime_buddy_message : ℕ → ℕ → ℕ → Datetime → Db → Result (Option BuddyMessage)
get_realtime_buddy_message conversation_id user_id message_id clock db = do
  require_authorized_active_conversation conversation_id user_id db
  now ← utc_now clock
  ok (scalar (λ m. m.id == message_id && is_effective conversation_id now m) db.messages)
