-- ===== src/Matches/Activation.antt =====
-- Activating a match for an accepted invitation (`_active_pair_exists` and `activate_buddy_match` of
-- apps/api/app/services/buddy_matches.py). The key of the new row is an argument; of the score's
-- snapshot the row keeps the whole number.
use buddy_web_ver.Base.{
  ℕ, Bool, not, ◌&&◌, ◌||◌, Option, none, some, ◌==◌, is_none, is_some, scalar,
}
use buddy_web_ver.Errors.{
  BuddyMatchActivationReason, accepted, Exception, activation_error, unique_violation, Result,
  or_raise,
}
use buddy_web_ver.Time.{Datetime, utc_now}
use buddy_web_ver.Models.Match.{BuddyMatch, active, canonical_user_pair, low_user_id, high_user_id}
use buddy_web_ver.Models.Invitation.{MatchingInvitation, status_is}
use buddy_web_ver.Db.{
  Db, Session, pure, lift, guard, query, read, map_error, insert_match, ◌>>=◌, ◌>>◌,
}
use buddy_web_ver.Matches.Participants.{
  LockedBuddyParticipants, state_invalid, same_semester, lock_buddy_match_participants,
}

abbrev pub invitation_not_accepted : Exception
invitation_not_accepted = activation_error BuddyMatchActivationReason.invitation_not_accepted

abbrev pub active_pair : Exception
active_pair = activation_error BuddyMatchActivationReason.active_pair_exists

-- The live invitation with a key.
abbrev pub live_invitation : ℕ → Db → Option MatchingInvitation
live_invitation id db = scalar (λ i. i.id == id && is_none i.deleted_at) db.invitations

abbrev pub is_pair : ℕ × ℕ → BuddyMatch → Bool
is_pair (low, high) m = low_user_id m == low && high_user_id m == high

-- Participants that were locked before belong to the invitation.
abbrev pub belong_to : MatchingInvitation → LockedBuddyParticipants → Bool
belong_to invitation participants =
    participants.sender_user.id == invitation.sender_id
    && participants.recipient_user.id == invitation.recipient_id
    && participants.sender_profile.user_id == invitation.sender_id
    && participants.recipient_profile.user_id == invitation.recipient_id

unfoldable pub participants_of :
    MatchingInvitation → Option LockedBuddyParticipants → Session LockedBuddyParticipants
participants_of invitation none = read (lock_buddy_match_participants invitation)
participants_of invitation (some participants) =
    guard (not (belong_to invitation participants)) state_invalid >> pure participants

unfoldable pub active_pair_exists : ℕ → ℕ → Session Bool
active_pair_exists first_user_id second_user_id = do
  pair ← lift (canonical_user_pair first_user_id second_user_id)
  query (λ db. is_some (scalar (is_pair pair) db.matches))

abbrev pub new_match : ℕ → MatchingInvitation → LockedBuddyParticipants → ℕ → ℕ → ℕ → BuddyMatch
new_match new_id invitation participants semester_id score activated_at = record {
  id = new_id;
  participant_one_user_id = invitation.sender_id;
  participant_two_user_id = invitation.recipient_id;
  participant_one_profile_id = participants.sender_profile.id;
  participant_two_profile_id = participants.recipient_profile.id;
  status = active;
  accepted_invitation_id = invitation.id;
  semester_id = semester_id;
  score = score;
  activated_at = activated_at;
  deleted_at = none;
}

abbrev pub active_pair_if_unique : Exception → Exception
active_pair_if_unique unique_violation = active_pair
active_pair_if_unique e = e

-- The part after the participants are locked, with the invitation read again under its lock.
unfoldable pub activate_between :
    ℕ → MatchingInvitation → LockedBuddyParticipants → ℕ → ℕ → Session BuddyMatch
activate_between new_id invitation participants score activated_at = do
  exists ← active_pair_exists invitation.sender_id invitation.recipient_id
  guard exists active_pair
  semester_id ← lift (or_raise participants.sender_user.semester_id state_invalid)
  guard (not (same_semester (some semester_id) participants.recipient_user.semester_id))
      state_invalid
  let m = new_match new_id invitation participants semester_id score activated_at
  map_error active_pair_if_unique (insert_match m)
  pure m

abbrev pub read_invitation : ℕ → Db → Result MatchingInvitation
read_invitation id db = or_raise (live_invitation id db) invitation_not_accepted

-- `locked_invitation` against the invitation that was read first.
abbrev pub has_changed : MatchingInvitation → MatchingInvitation → Bool
has_changed invitation locked =
    not (status_is locked.status accepted)
    || not (locked.sender_id == invitation.sender_id)
    || not (locked.recipient_id == invitation.recipient_id)

unfoldable pub activate_locked :
    ℕ → ℕ → ℕ → ℕ → MatchingInvitation → LockedBuddyParticipants → Session BuddyMatch
activate_locked new_id accepted_invitation_id score activated_at invitation participants = do
  locked ← read (read_invitation accepted_invitation_id)
  guard (has_changed invitation locked) invitation_not_accepted
  activate_between new_id locked participants score activated_at

unfoldable pub activate_buddy_match :
    ℕ → ℕ → ℕ → Option LockedBuddyParticipants → Datetime → Session BuddyMatch
activate_buddy_match new_id accepted_invitation_id score locked_participants clock = do
  activated_at ← lift (utc_now clock)
  invitation ← read (read_invitation accepted_invitation_id)
  guard (not (status_is invitation.status accepted)) invitation_not_accepted
  participants ← participants_of invitation locked_participants
  activate_locked new_id accepted_invitation_id score activated_at invitation participants
