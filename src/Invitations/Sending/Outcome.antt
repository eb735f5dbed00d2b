-- ===== src/Invitations/Sending/Outcome.antt =====
-- What a send answers once the message and the two participants are accepted, in the order of its
-- checks (`send_matching_invitation` from `_expire_or_reject_pending_pair` on).
use buddy_web_ver.Base.{ℕ, any, if◌then◌else◌, leb, length}
use buddy_web_ver.Errors.{InvitationSendReason, send_error, Result, err}
use buddy_web_ver.Text.{Text}
use buddy_web_ver.Models.Invitation.{MatchingInvitation}
use buddy_web_ver.Db.{Db}
use buddy_web_ver.Matches.Outcome.{is_between}
use buddy_web_ver.Invitations.Sending.{store_invitation}
use buddy_web_ver.Invitations.Sending.Participants.{SendParticipants}
use buddy_web_ver.Invitations.Sending.Rejections.{pending_of, max_outgoing_pending_invitations}
use buddy_web_ver.Invitations.Sending.Renewal.{is_open_at, renewed}

module _ (new_id new_outbox_id now : ℕ) (p : SendParticipants) (text : Text) (db : Db) where
  -- The answer by what stands against the invitation from `u` to `v`.
  abbrev pub Answer : ℕ → ℕ → Result (MatchingInvitation × Db)
  Answer u v =
      let left = renewed now u v db.invitations in
      if any (is_open_at now u v) db.invitations
      then err (send_error InvitationSendReason.pending_exists)
      else if any (is_between u v) db.matches
      then err (send_error InvitationSendReason.active_pair_exists)
      else if leb max_outgoing_pending_invitations (length (pending_of u now left))
      then err (send_error InvitationSendReason.pending_limit_reached)
      else store_invitation new_id new_outbox_id p text now (record db { invitations = left })
