-- ===== src/Invitations/Acceptance/Replays.antt =====
-- The replay of an acceptance, and the checks on the row.
use buddy_web_ver.Base.{ℕ, ◌≡◌, refl, ◌⊎◌, inl, inr, true, ◌&&◌, some, ◌==◌, is_none, scalar, arith}
use buddy_web_ver.Errors.{
  InvitationStatus, pending, accepted, declined, cancelled, Result, ok, or_raise, or_raise_inv,
}
use buddy_web_ver.Time.{aware}
use buddy_web_ver.Models.Match.{BuddyMatch, BuddyConversation}
use buddy_web_ver.Models.Invitation.{MatchingInvitation, status_is}
use buddy_web_ver.Db.{Db, Session, pure, lift, guard, read, lift_then, read_then, ◌>>=◌}
use buddy_web_ver.Db.Tables.{scalar_sound}
use buddy_web_ver.Invitations.Expiry.{effective_invitation_status}
use buddy_web_ver.Invitations.Acceptance.{
  InvitationAcceptanceResult, receipt, not_found, state_conflict, accept_expired,
  load_owned_invitation, load_completed_result, by_status, require_effective,
}

-- The receipt of an invitation that was accepted before.
pub record Replayed (i : MatchingInvitation) (db db' : Db) (r : InvitationAcceptanceResult)
    : Type 0 where
  pub buddy_match : BuddyMatch
  pub conversation : BuddyConversation
  pub its_match :
      scalar (λ m. m.accepted_invitation_id == i.id && is_none m.deleted_at) db.matches
      ≡ some buddy_match
  pub its_conversation :
      scalar (λ c. c.match_id == buddy_match.id) db.conversations ≡ some conversation
  pub is_receipt : r ≡ receipt i.id buddy_match conversation
  pub unchanged : db' ≡ db

pub completed-Replayed :
    (i : MatchingInvitation) (db db' : Db) (r : InvitationAcceptanceResult)
    → load_completed_result i db ≡ ok (r, db')
    → Replayed i db db' r
unfolding load_completed_result
completed-Replayed i db db' r h =
    let find : Db → Result BuddyMatch = λ db.
      or_raise (scalar (λ m. m.accepted_invitation_id == i.id && is_none m.deleted_at) db.matches)
        state_conflict in
    let talk : BuddyMatch → Db → Result BuddyConversation =
      λ m db. or_raise (scalar (λ c. c.match_id == m.id) db.conversations) state_conflict in
    let (m, is_m, h1) =
      read_then find (λ m. read (talk m) >>= λ c. pure (receipt i.id m c)) db db' r h in
    let (c, is_c, h2) = read_then (talk m) (λ c. pure (receipt i.id m c)) db db' r h1 in
    record {
      buddy_match = m;
      conversation = c;
      its_match =
          or_raise_inv
            (scalar (λ m. m.accepted_invitation_id == i.id && is_none m.deleted_at) db.matches)
            state_conflict m is_m;
      its_conversation =
          or_raise_inv (scalar (λ c. c.match_id == m.id) db.conversations) state_conflict c is_c;
      is_receipt = cc;
      unchanged = cc;
    }

-- The receipt can be read whenever its rows are there.
pub completes :
    (i : MatchingInvitation) (m : BuddyMatch) (c : BuddyConversation) (db : Db)
    → scalar (λ m. m.accepted_invitation_id == i.id && is_none m.deleted_at) db.matches ≡ some m
    → scalar (λ c. c.match_id == m.id) db.conversations ≡ some c
    → load_completed_result i db ≡ ok (receipt i.id m c, db)
unfolding load_completed_result
completes i m c db is_m is_c = rw (◌>>=◌, read, lift, is_m, is_c) refl

pub status_cases :
    (s : InvitationStatus) (replay go : Session InvitationAcceptanceResult) (db db' : Db)
    (r : InvitationAcceptanceResult)
    → by_status s replay go db ≡ ok (r, db')
    → ((status_is s accepted ≡ true) × (replay db ≡ ok (r, db')))
      ⊎ ((status_is s pending ≡ true) × (go db ≡ ok (r, db')))
status_cases accepted replay go db db' r h = inl (refl, h)
status_cases pending replay go db db' r h = inr (refl, h)
status_cases declined replay go db db' r h = cc
status_cases cancelled replay go db db' r h = cc
status_cases InvitationStatus.expired replay go db db' r h = cc

pub status_differs :
    (s : InvitationStatus) → status_is s accepted ≡ true → status_is s pending ≡ true → ⊥
status_differs s h k = ground arith

pub effective_left :
    (i : MatchingInvitation) (at : ℕ) (db db' : Db)
    → require_effective i at db ≡ ok (tt, db')
    → db' ≡ db
effective_left i at db db' h =
    let (e, _, h1) =
      lift_then (effective_invitation_status i (aware at))
        (λ e. guard (status_is e InvitationStatus.expired) accept_expired) db db' tt h in
    ground arith

pub owned_key :
    (k user_id : ℕ) (i : MatchingInvitation) (db : Db)
    → load_owned_invitation k user_id db ≡ ok i
    → i.id ≡ k
unfolding load_owned_invitation
owned_key k user_id i db h = ground (
  arith,
  scalar_sound (λ i. i.id == k && i.recipient_id == user_id && is_none i.deleted_at) i
      db.invitations
      (or_raise_inv
        (scalar (λ i. i.id == k && i.recipient_id == user_id && is_none i.deleted_at)
          db.invitations)
        not_found i h),
)
