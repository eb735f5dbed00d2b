-- ===== src/Invitations/Acceptance.antt =====
-- Accepting an invitation (apps/api/app/services/invitation_acceptance.py). The two readings of the
-- clock, the keys of the new rows, the time zone database and the Unicode tables are arguments.
pub mod Stored
pub mod Replays
pub mod Outcome
pub mod Results
use buddy_web_ver.Base.{ℕ, ◌+◌, ◌-◌, ◌/◌, ◌%◌, not, ◌&&◌, none, some, ◌==◌, is_none, scalar}
use buddy_web_ver.Errors.{
  InvitationStatus, pending, accepted, declined, cancelled, InvitationAcceptReason, Exception,
  accept_error, activation_error, capability_error, BuddyMatchActivationReason,
  invitation_not_accepted, participant_state_invalid, Result, err, or_raise,
}
use buddy_web_ver.Time.{Datetime, aware, utc_now, day}
use buddy_web_ver.Text.{codes, append_text, uuid_text}
use buddy_web_ver.Models.Json.{field, end_fields, text}
use buddy_web_ver.Models.User.{User}
use buddy_web_ver.Models.Match.{BuddyMatch, BuddyConversation}
use buddy_web_ver.Models.Invitation.{MatchingInvitation, accept, status_is}
use buddy_web_ver.Preferences.{Unicode}
use buddy_web_ver.Db.{
  Db, Session, pure, fail, lift, guard, read, map_error, save_invitation, ◌>>=◌, ◌>>◌,
}
use buddy_web_ver.Outbox.Event.{EmailEvent}
use buddy_web_ver.Outbox.Enqueue.{enqueue_transactional_email}
use buddy_web_ver.Invitations.Expiry.{effective_invitation_status}
use buddy_web_ver.Profiles.Access.{VerifiedBuddyPrincipal, get_eligible_matching_principal}
use buddy_web_ver.Matches.Participants.{LockedBuddyParticipants, lock_buddy_match_participants}
use buddy_web_ver.Matches.Activation.{activate_buddy_match}
use buddy_web_ver.Chat.Conversations.{get_or_create_buddy_conversation}
use buddy_web_ver.Matching.Availability.{ToUtc}
use buddy_web_ver.Matching.Eligibility.{EligibleMatchingPrincipal, matching_pair_is_eligible}
use buddy_web_ver.Matching.Projection.{en, load_matching_pair_scoring_profiles}
use buddy_web_ver.Matching.Scoring.{CompatibilityScore, score_eligible_pair}

-- The receipt, whose status is always ACCEPTED.
pub record InvitationAcceptanceResult : Type 0 where
  pub invitation_id : ℕ
  pub match_id : ℕ
  pub conversation_id : ℕ

abbrev pub not_found : Exception
not_found = accept_error InvitationAcceptReason.not_found

abbrev pub accept_expired : Exception
accept_expired = accept_error InvitationAcceptReason.expired

abbrev pub not_pending : Exception
not_pending = accept_error InvitationAcceptReason.not_pending

abbrev pub state_conflict : Exception
state_conflict = accept_error InvitationAcceptReason.state_conflict

-- `_load_owned_invitation`
unfoldable pub load_owned_invitation : ℕ → ℕ → Db → Result MatchingInvitation
load_owned_invitation invitation_id recipient_user_id db =
    or_raise
      (scalar
        (λ i. i.id == invitation_id && i.recipient_id == recipient_user_id && is_none i.deleted_at)
        db.invitations)
      not_found

abbrev pub receipt : ℕ → BuddyMatch → BuddyConversation → InvitationAcceptanceResult
receipt invitation_id m c = record {
  invitation_id = invitation_id;
  match_id = m.id;
  conversation_id = c.id;
}

-- `_load_completed_result`
unfoldable pub load_completed_result : MatchingInvitation → Session InvitationAcceptanceResult
load_completed_result i = do
  m ← read (λ db.
      or_raise (scalar (λ m. m.accepted_invitation_id == i.id && is_none m.deleted_at) db.matches)
        state_conflict)
  c ← read (λ db. or_raise (scalar (λ c. c.match_id == m.id) db.conversations) state_conflict)
  pure (receipt i.id m c)

-- `_map_activation_error`
abbrev pub accept_reason : BuddyMatchActivationReason → InvitationAcceptReason
accept_reason participant_state_invalid = InvitationAcceptReason.participant_ineligible
accept_reason BuddyMatchActivationReason.opposite_types_required =
    InvitationAcceptReason.opposite_types_required
accept_reason BuddyMatchActivationReason.active_pair_exists =
    InvitationAcceptReason.active_pair_exists
accept_reason invitation_not_accepted = InvitationAcceptReason.state_conflict

abbrev pub map_activation_error : Exception → Exception
map_activation_error (activation_error reason) = accept_error (accept_reason reason)
map_activation_error e = e

abbrev pub ineligible_as : InvitationAcceptReason → Exception → Exception
ineligible_as reason (capability_error r) = accept_error reason
ineligible_as reason e = e

-- The UTC Monday on or before an instant, in days since the Monday before 1970.
unfoldable pub current_reference_week_start : ℕ → ℕ
current_reference_week_start now = let date = now / day + 3 in date - date % 7

-- The event `MATCHING_INVITATION_ACCEPTED`.
abbrev pub accepted_event : ℕ → User → BuddyMatch → BuddyConversation → EmailEvent
accepted_event invitation_id sender m c = record {
  event_type = codes "MATCHING_INVITATION_ACCEPTED";
  aggregate_id = invitation_id;
  recipient_user_id = some sender.id;
  recipient_email = sender.email;
  idempotency_key = append_text (codes "matching-invitation-accepted:") (uuid_text invitation_id);
  payload = field (codes "invitation_id") (text (uuid_text invitation_id)) (
      field (codes "match_id") (text (uuid_text m.id))
        (field (codes "conversation_id") (text (uuid_text c.id)) end_fields));
}

-- An ACCEPTED invitation is answered by its receipt, a PENDING one goes on.
abbrev pub by_status :
    InvitationStatus
    → Session InvitationAcceptanceResult
    → Session InvitationAcceptanceResult
    → Session InvitationAcceptanceResult
by_status accepted replay go = replay
by_status pending replay go = go
by_status declined replay go = fail not_pending
by_status cancelled replay go = fail not_pending
by_status InvitationStatus.expired replay go = fail not_pending

abbrev pub require_effective : MatchingInvitation → ℕ → Session (Unit {0})
require_effective i at = do
  effective ← lift (effective_invitation_status i (aware at))
  guard (status_is effective InvitationStatus.expired) accept_expired

-- The keys of the rows that an acceptance makes.
pub record NewKeys : Type 0 where
  pub match_id : ℕ
  pub conversation_id : ℕ
  pub outbox_id : ℕ

-- The writes: the accepted row, the match, its conversation and the event.
unfoldable pub store_acceptance :
    NewKeys
    → MatchingInvitation
    → LockedBuddyParticipants
    → ℕ
    → ℕ
    → Session InvitationAcceptanceResult
store_acceptance keys invitation participants score accepted_at = do
  answered ← lift (accept (aware accepted_at) invitation)
  save_invitation answered
  m ←
      map_error map_activation_error (
        activate_buddy_match keys.match_id answered.id score (some participants)
          (aware accepted_at))
  c ← get_or_create_buddy_conversation keys.conversation_id m.id (aware accepted_at)
  enqueue_transactional_email keys.outbox_id
      (accepted_event answered.id participants.sender_user m c) (aware accepted_at)
  pure (receipt answered.id m c)

module _ (to_utc : ToUtc) (unicode : Unicode) where
  -- `_require_current_eligibility`
  unfoldable pub require_current_eligibility :
      VerifiedBuddyPrincipal → InvitationAcceptReason → Session EligibleMatchingPrincipal
  require_current_eligibility principal reason =
      map_error (ineligible_as reason) (read (get_eligible_matching_principal unicode principal))

  abbrev pub scored_pair :
      EligibleMatchingPrincipal → EligibleMatchingPrincipal → ℕ → Db → Result CompatibilityScore
  scored_pair sender recipient accepted_at db =
      elim (load_matching_pair_scoring_profiles sender recipient en db) [
        | none ↦ err (accept_error InvitationAcceptReason.participant_ineligible)
        | some (p, q) ↦
            score_eligible_pair to_utc unicode sender recipient p q
              (current_reference_week_start accepted_at)
      ]

  -- The part on the locked invitation, once it is pending.
  unfoldable pub accept_pending :
      NewKeys
      → LockedBuddyParticipants
      → EligibleMatchingPrincipal
      → EligibleMatchingPrincipal
      → MatchingInvitation
      → Datetime
      → Session InvitationAcceptanceResult
  accept_pending keys participants sender recipient invitation clock = do
    accepted_at ← lift (utc_now clock)
    require_effective invitation accepted_at
    compatibility ← read (scored_pair sender recipient accepted_at)
    store_acceptance keys invitation participants compatibility.score accepted_at

  -- The part from the locks on.
  unfoldable pub accept_observed :
      NewKeys → ℕ → MatchingInvitation → Datetime → Session InvitationAcceptanceResult
  accept_observed keys recipient_user_id observed clock = do
    participants ← map_error map_activation_error (read (lock_buddy_match_participants observed))
    sender ←
        require_current_eligibility
          (record { owner = participants.sender_user; profile = participants.sender_profile })
          InvitationAcceptReason.participant_ineligible
    recipient ←
        require_current_eligibility
          (record { owner = participants.recipient_user; profile = participants.recipient_profile })
          InvitationAcceptReason.recipient_ineligible
    guard (not (recipient.user_id == recipient_user_id)) not_found
    guard (not (matching_pair_is_eligible sender recipient))
        (accept_error InvitationAcceptReason.opposite_types_required)
    invitation ← read (load_owned_invitation observed.id recipient_user_id)
    guard (not (invitation.sender_id == observed.sender_id)) state_conflict
    by_status invitation.status (load_completed_result invitation)
        (accept_pending keys participants sender recipient invitation clock)

  unfoldable pub accept_matching_invitation :
      NewKeys → ℕ → ℕ → Datetime → Datetime → Session InvitationAcceptanceResult
  accept_matching_invitation keys recipient_user_id invitation_id clock later = do
    observed ← read (load_owned_invitation invitation_id recipient_user_id)
    by_status observed.status (load_completed_result observed) do
      at ← lift (utc_now clock)
      require_effective observed at
      accept_observed keys recipient_user_id observed later
