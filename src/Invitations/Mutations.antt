-- ===== src/Invitations/Mutations.antt =====
-- Decline, Cancel and Hide by an invitation's owner
-- (apps/api/app/services/invitation_mutations.py).
pub mod Outcome
pub mod Repeats
use buddy_web_ver.Base.{ℕ, ◌≡◌, Bool, true, false, not, ◌&&◌, if◌then◌else◌, ◌==◌, is_none, scalar}
use buddy_web_ver.Errors.{
  InvitationStatus, InvitationMutationReason, pending, accepted, declined, cancelled, Exception,
  mutation_error, Result, ok, err, or_raise,
}
use buddy_web_ver.Time.{Datetime, aware, utc_now}
use buddy_web_ver.Models.Invitation.{
  MatchingInvitation, status_is, decline, cancel, hide_from_sender,
}
use buddy_web_ver.Invitations.Expiry.{effective_invitation_status}
use buddy_web_ver.Db.{Db, Session, ◌>>=◌, ◌>>◌, save_invitation, guard, lift, query, pure, fail}

pub data InvitationOwner : Type 0 where
  recipient sender : InvitationOwner

pub record InvitationMutationResult : Type 0 where
  pub invitation_id : ℕ
  pub status : InvitationStatus

abbrev pub owner_id : InvitationOwner → MatchingInvitation → ℕ
owner_id recipient i = i.recipient_id
owner_id sender i = i.sender_id

abbrev pub is_owned : ℕ → ℕ → InvitationOwner → MatchingInvitation → Bool
is_owned invitation_id owner_user_id owner i =
    i.id == invitation_id && owner_id owner i == owner_user_id && is_none i.deleted_at

unfoldable pub load_owned_invitation_for_update :
    ℕ → ℕ → InvitationOwner → Session MatchingInvitation
load_owned_invitation_for_update invitation_id owner_user_id owner db =
    lift
      (or_raise (scalar (is_owned invitation_id owner_user_id owner) db.invitations)
        (mutation_error InvitationMutationReason.not_found))
      db

abbrev pub result : MatchingInvitation → InvitationMutationResult
result i = record { invitation_id = i.id; status = i.status }

-- What each service does with the row that it has locked.
unfoldable pub decline_locked : Datetime → MatchingInvitation → Session InvitationMutationResult
decline_locked clock i = if status_is i.status declined then pure (result i) else do
  changed_at ← lift (utc_now clock)
  effective ← lift (effective_invitation_status i (aware changed_at))
  guard (status_is effective InvitationStatus.expired)
      (mutation_error InvitationMutationReason.expired)
  guard (not (status_is i.status pending)) (mutation_error InvitationMutationReason.invalid_state)
  j ← lift (decline (aware changed_at) i)
  save_invitation j
  pure (result j)

unfoldable pub cancel_locked : Datetime → MatchingInvitation → Session InvitationMutationResult
cancel_locked clock i = if status_is i.status cancelled then pure (result i) else do
  changed_at ← lift (utc_now clock)
  effective ← lift (effective_invitation_status i (aware changed_at))
  guard (status_is effective InvitationStatus.expired)
      (mutation_error InvitationMutationReason.expired)
  guard (not (status_is i.status pending)) (mutation_error InvitationMutationReason.invalid_state)
  j ← lift (cancel (aware changed_at) i)
  save_invitation j
  pure (result j)

-- A row that was already hidden is not written again.
abbrev pub flush_if : Bool → MatchingInvitation → Session (Unit {0})
flush_if changed i = if changed then save_invitation i else pure tt

unfoldable pub hide_locked : Datetime → MatchingInvitation → Session InvitationMutationResult
hide_locked clock i = do
  guard (not (status_is i.status accepted)) (mutation_error InvitationMutationReason.invalid_state)
  at ← lift (utc_now clock)
  (j, changed) ← lift (hide_from_sender (aware at) i)
  flush_if changed j
  pure (result j)

unfoldable pub decline_matching_invitation : ℕ → ℕ → Datetime → Session InvitationMutationResult
decline_matching_invitation current_user_id invitation_id clock = do
  i ← load_owned_invitation_for_update invitation_id current_user_id recipient
  decline_locked clock i

unfoldable pub cancel_matching_invitation : ℕ → ℕ → Datetime → Session InvitationMutationResult
cancel_matching_invitation current_user_id invitation_id clock = do
  i ← load_owned_invitation_for_update invitation_id current_user_id sender
  cancel_locked clock i

unfoldable pub hide_accepted_invitation_from_sender :
    ℕ → ℕ → Datetime → Session InvitationMutationResult
hide_accepted_invitation_from_sender current_user_id invitation_id clock = do
  i ← load_owned_invitation_for_update invitation_id current_user_id sender
  hide_locked clock i
