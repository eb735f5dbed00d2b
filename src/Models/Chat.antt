-- ===== src/Models/Chat.antt =====
-- Messages of a conversation and their retention (apps/api/app/models/buddy_chat.py).
use buddy_web_ver.Base.{ℕ, ◌+◌, ◌*◌, Bool, ◌&&◌, Option, none, some, ltb, leb, ◌==◌, length, min}
use buddy_web_ver.Errors.{value_error, Complaint, Result, ok, ◌>>=◌, ◌>>◌, raise_if}
use buddy_web_ver.Time.{Datetime, require_aware, day}
use buddy_web_ver.Text.{Text, strip, is_empty}

abbrev pub max_buddy_message_code_points : ℕ
max_buddy_message_code_points = 10_000

abbrev pub buddy_message_max_retention : ℕ
buddy_message_max_retention = 90 * day

abbrev pub buddy_message_read_retention : ℕ
buddy_message_read_retention = 30 * day

pub record BuddyMessage : Type 0 where
  pub id : ℕ
  pub conversation_id : ℕ
  pub sender_id : ℕ
  pub client_message_id : ℕ
  pub body : Text
  pub created_at : ℕ
  pub read_at : Option ℕ
  pub expires_at : ℕ

unfoldable pub buddy_message_expires_at : Datetime → Result ℕ
buddy_message_expires_at created_at = do
  t ← require_aware created_at
  ok (t + buddy_message_max_retention)

unfoldable pub validate_buddy_message_body : Text → Result Text
validate_buddy_message_body body = do
  raise_if (is_empty (strip body)) (value_error Complaint.blank_body)
  raise_if (ltb max_buddy_message_code_points (length body)) (value_error Complaint.body_too_long)
  ok body

-- `ck_buddy_messages_retention_timestamps`
abbrev pub retention_timestamps : BuddyMessage → Bool
retention_timestamps m = elim m.read_at [
  | none ↦ m.expires_at == m.created_at + buddy_message_max_retention
  | some read ↦
      leb m.created_at read
      && m.expires_at
        == min (read + buddy_message_read_retention) (m.created_at + buddy_message_max_retention)
]
