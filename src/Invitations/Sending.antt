-- ===== src/Invitations/Sending.antt =====
-- Sending an invitation (`_lock_and_revalidate_pair`, `_expire_or_reject_pending_pair`,
-- `_reject_active_pair`, `_require_pending_capacity` and `send_matching_invitation` of
-- apps/api/app/services/invitation_sending.py). The keys of the new rows are arguments.
pub mod Participants
pub mod Rejections
pub mod Effects
pub mod Sent
pub mod Renewal
pub mod Results
pub mod Outcome
use buddy_web_ver.Base.{
  ℕ, ◌≡◌, Bool, true, false, not, ◌&&◌, ◌||◌, Option, none, some, List, [], ◌∷◌, ltb, leb, ◌==◌,
  if◌then◌else◌, is_none, is_some, scalar, select, length,
}
use buddy_web_ver.Errors.{
  InvitationSendReason, pending, Exception, send_error, unique_violation, Result, ok, err,
}
use buddy_web_ver.Time.{Datetime, aware, utc_now}
use buddy_web_ver.Text.{Text, codes, append_text, uuid_text}
use buddy_web_ver.Models.User.{User}
use buddy_web_ver.Models.Json.{JsonFields, field, end_fields, text}
use buddy_web_ver.Models.Invitation.{
  MatchingInvitation, invitation_expiry_interval, invitation_expires_at,
}
use buddy_web_ver.Preferences.{Unicode}
use buddy_web_ver.Db.{
  Db, Session, pure, lift, guard, read, map_error, insert_invitation, ◌>>=◌, ◌>>◌,
}
use buddy_web_ver.Matching.Eligibility.{EligibleMatchingPrincipal}
use buddy_web_ver.Outbox.Event.{EmailEvent}
use buddy_web_ver.Outbox.Enqueue.{enqueue_transactional_email}
use buddy_web_ver.Invitations.Message.{CanonicalInvitationMessage, canonicalize_invitation_message}
use buddy_web_ver.Invitations.Sending.Participants.{SendParticipants, lock_and_revalidate_pair}
use buddy_web_ver.Invitations.Sending.Rejections.{
  expire_or_reject_pending_pair, reject_active_pair, require_pending_capacity,
}

-- The new row.
abbrev pub new_invitation : ℕ → ℕ → ℕ → Text → ℕ → ℕ → MatchingInvitation
new_invitation new_id sender_id recipient_id message expires_at now = record {
  id = new_id;
  sender_id = sender_id;
  recipient_id = recipient_id;
  message = message;
  status = pending;
  created_at = some now;
  expires_at = expires_at;
  responded_at = none;
  cancelled_at = none;
  expired_at = none;
  sender_hidden_at = none;
  deleted_at = none;
  version = 1;
}

-- `except IntegrityError`: a unique violation is a pending invitation, another error goes on.
abbrev pub pending_exists_if_unique : Exception → Exception
pending_exists_if_unique unique_violation = send_error InvitationSendReason.pending_exists
pending_exists_if_unique e = e

-- The event `MATCHING_INVITATION_CREATED`.
abbrev pub created_event : MatchingInvitation → User → EmailEvent
created_event i recipient = record {
  event_type = codes "MATCHING_INVITATION_CREATED";
  aggregate_id = i.id;
  recipient_user_id = some recipient.id;
  recipient_email = recipient.email;
  idempotency_key = append_text (codes "matching-invitation-created:") (uuid_text i.id);
  payload = field (codes "invitation_id") (text (uuid_text i.id)) end_fields;
}

-- The part after the checks: the row and its event.
unfoldable pub store_invitation : ℕ → ℕ → SendParticipants → Text → ℕ → Session MatchingInvitation
store_invitation new_id new_outbox_id participants message now = do
  expires_at ← lift (invitation_expires_at (aware now))
  let i =
      new_invitation new_id participants.sender.user_id participants.recipient.user_id message
        expires_at now
  map_error pending_exists_if_unique (insert_invitation i)
  enqueue_transactional_email new_outbox_id (created_event i participants.recipient_user)
      (aware now)
  pure i

-- The part after the participants are locked.
unfoldable pub send_between : ℕ → ℕ → SendParticipants → Text → ℕ → Session MatchingInvitation
send_between new_id new_outbox_id participants message now = do
  expire_or_reject_pending_pair participants.sender.user_id participants.recipient.user_id now
  reject_active_pair participants.sender.user_id participants.recipient.user_id
  require_pending_capacity participants.sender.user_id now
  store_invitation new_id new_outbox_id participants message now

module _ (unicode : Unicode) where
  unfoldable pub send_matching_invitation :
      ℕ → ℕ → EligibleMatchingPrincipal → ℕ → Text → Datetime → Session MatchingInvitation
  send_matching_invitation new_id new_outbox_id sender recipient_profile_id message clock = do
    canonical_message ← lift (canonicalize_invitation_message message)
    now ← lift (utc_now clock)
    participants ← read (lock_and_revalidate_pair unicode sender.user_id recipient_profile_id)
    send_between new_id new_outbox_id participants canonical_message.value now
