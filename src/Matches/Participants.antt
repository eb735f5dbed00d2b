-- ===== src/Matches/Participants.antt =====
-- The participants of a match, locked and checked (`lock_current_buddy_users` of
-- apps/api/app/services/buddy_match_policy.py and `lock_buddy_match_participants` of
-- buddy_matches.py).
use buddy_web_ver.Base.{
  ℕ, Bool, true, false, not, ◌&&◌, ◌||◌, Option, none, some, List, [], ◌∷◌, ltb, ◌==◌,
  if◌then◌else◌, is_none, is_some, scalar,
}
use buddy_web_ver.Errors.{
  BuddyMatchActivationReason, Exception, activation_error, participant_state_error, Result, ok, err,
  ◌>>=◌, ◌>>◌, raise_if, or_raise,
}
use buddy_web_ver.Models.User.{User, is_user_role}
use buddy_web_ver.Models.Profile.{StudentProfile, StudentType, type_is}
use buddy_web_ver.Models.Match.{canonical_user_pair}
use buddy_web_ver.Models.Invitation.{MatchingInvitation}
use buddy_web_ver.Db.{Db}

pub record LockedBuddyParticipants : Type 0 where
  pub sender_user : User
  pub recipient_user : User
  pub sender_profile : StudentProfile
  pub recipient_profile : StudentProfile

abbrev pub state_invalid : Exception
state_invalid = activation_error BuddyMatchActivationReason.participant_state_invalid

unfoldable pub available_user : Option User → Bool
available_user none = false
available_user (some u) = is_user_role u.role && u.is_active && is_none u.deleted_at

-- `sorted(set(user_ids))`
abbrev pub insert_id : ℕ → List ℕ → List ℕ
insert_id id [] = id ∷ []
insert_id id (other ∷ ids) =
    if id == other
    then other ∷ ids
    else if ltb id other
    then id ∷ other ∷ ids
    else other ∷ insert_id id ids

abbrev pub ordered_ids : List ℕ → List ℕ
ordered_ids [] = []
ordered_ids (id ∷ ids) = insert_id id (ordered_ids ids)

-- The rows of the keys, all of them available.
unfoldable pub available_users : List User → List ℕ → Result (List User)
available_users users [] = ok []
available_users users (id ∷ ids) = do
  u ← or_raise (scalar (λ u. u.id == id) users) participant_state_error
  raise_if (not (available_user (some u))) participant_state_error
  rest ← available_users users ids
  ok (u ∷ rest)

abbrev pub no_ids : List ℕ → Bool
no_ids [] = true
no_ids (id ∷ ids) = false

unfoldable pub lock_current_buddy_users : List ℕ → Db → Result (List User)
lock_current_buddy_users user_ids db = do
  raise_if (no_ids (ordered_ids user_ids)) participant_state_error
  available_users db.users (ordered_ids user_ids)

-- `except BuddyParticipantStateError`
abbrev pub state_invalid_for {ℓ} : {A : Type ℓ} → Result A → Result A
state_invalid_for (ok a) = ok a
state_invalid_for (err participant_state_error) = err state_invalid
state_invalid_for (err e) = err e

abbrev pub same_semester : Option ℕ → Option ℕ → Bool
same_semester (some semester) (some other) = semester == other
same_semester (some semester) none = false
same_semester none other = false

-- `{left, right} == {VIETNAMESE, INTERNATIONAL}`
abbrev pub opposite_types : Option StudentType → Option StudentType → Bool
opposite_types (some left) (some right) = not (type_is left right)
opposite_types (some left) none = false
opposite_types none right = false

unfoldable pub lock_buddy_match_participants :
    MatchingInvitation → Db → Result LockedBuddyParticipants
lock_buddy_match_participants invitation db = do
  (low, high) ← canonical_user_pair invitation.sender_id invitation.recipient_id
  users ← state_invalid_for (lock_current_buddy_users (low ∷ high ∷ []) db)
  sender_user ← or_raise (scalar (λ u. u.id == invitation.sender_id) users) state_invalid
  recipient_user ← or_raise (scalar (λ u. u.id == invitation.recipient_id) users) state_invalid
  sender_profile ←
      or_raise (scalar (λ p. p.user_id == invitation.sender_id) db.profiles) state_invalid
  recipient_profile ←
      or_raise (scalar (λ p. p.user_id == invitation.recipient_id) db.profiles) state_invalid
  raise_if
      (is_some sender_profile.deleted_at
        || is_some recipient_profile.deleted_at
        || not (same_semester sender_user.semester_id recipient_user.semester_id))
      state_invalid
  raise_if (not (opposite_types sender_profile.student_type recipient_profile.student_type))
      (activation_error BuddyMatchActivationReason.opposite_types_required)
  ok (record {
    sender_user = sender_user;
    recipient_user = recipient_user;
    sender_profile = sender_profile;
    recipient_profile = recipient_profile;
  })
