-- ===== src/Tests/Matches.antt =====
-- An activation between the two complete profiles, and the theorems about activation applied to it.
use buddy_web_ver.Base.{◌≡◌, arith, refl, true, none, some, [], ◌∷◌}
use buddy_web_ver.Errors.{accepted, ok}
use buddy_web_ver.Time.{aware}
use buddy_web_ver.Text.{codes}
use buddy_web_ver.Models.Profile.{vietnamese, international}
use buddy_web_ver.Models.Match.{BuddyMatch, active, canonical_user_pair}
use buddy_web_ver.Models.Invitation.{MatchingInvitation, status_is}
use buddy_web_ver.Db.{Db, insert_match}
use buddy_web_ver.Matches.Participants.{
  LockedBuddyParticipants, available_user, available_users, lock_current_buddy_users,
  lock_buddy_match_participants,
}
use buddy_web_ver.Matches.Activation.{
  live_invitation, participants_of, active_pair_exists, activate_between, activate_locked,
  activate_buddy_match,
}
use buddy_web_ver.Matches.Writes.{Activated}
use buddy_web_ver.Matches.Belonging.{Belong}
use buddy_web_ver.Matches.Pairs.{activation_result}
use buddy_web_ver.Matches.Outcome.{activation_outcome}
use buddy_web_ver.Tests.Data.{answered}
use buddy_web_ver.Tests.Sending.{school, student, profile_of}

abbrev accepted_school : Db
accepted_school = record school { invitations = answered ∷ [] }

abbrev new_match_row : BuddyMatch
new_match_row = record {
  id = 71;
  participant_one_user_id = 1;
  participant_two_user_id = 2;
  participant_one_profile_id = 11;
  participant_two_profile_id = 12;
  status = active;
  accepted_invitation_id = 7;
  semester_id = 5;
  score = 88;
  activated_at = 3000;
  deleted_at = none;
}

abbrev matched_school : Db
matched_school = record accepted_school { matches = new_match_row ∷ [] }

activation_runs :
    activate_buddy_match 71 7 88 none (aware 3000) accepted_school
    ≡ ok (new_match_row, matched_school)
unfolding activate_buddy_match activate_locked activate_between active_pair_exists participants_of
    lock_buddy_match_participants lock_current_buddy_users available_users available_user
    canonical_user_pair insert_match
activation_runs = refl

activation_result_example :
    (i : MatchingInvitation) × (p : LockedBuddyParticipants) × (live_invitation 7 accepted_school
      ≡ some i)
    × (status_is i.status accepted ≡ true)
    × (participants_of i none accepted_school ≡ ok (p, accepted_school))
    × Belong i p
    × Activated i p 88 accepted_school matched_school new_match_row
activation_result_example =
    activation_result 71 7 88 none (aware 3000) accepted_school matched_school new_match_row
      activation_runs

abbrev two_students : LockedBuddyParticipants
two_students = record {
  sender_user = student 1 (codes "a@x.vn");
  recipient_user = student 2 (codes "b@x.de");
  sender_profile = profile_of 11 1 vietnamese;
  recipient_profile = profile_of 12 2 international;
}

participants_locked :
    participants_of answered none accepted_school ≡ ok (two_students, accepted_school)
unfolding participants_of lock_buddy_match_participants lock_current_buddy_users available_users
    available_user canonical_user_pair
participants_locked = refl

activation_outcome_example :
    activate_buddy_match 71 7 88 none (aware 3000) accepted_school
    ≡ ok (new_match_row, matched_school)
activation_outcome_example =
    activation_outcome 71 88 3000 answered two_students accepted_school (λ e. omega (arith, e)) 7
      none refl refl participants_locked
