-- ===== src/Invitations/Sending/Participants.antt =====
-- The two participants of a new invitation, locked and checked again
-- (`_is_available_user` and `_lock_and_revalidate_pair`).
use buddy_web_ver.Base.{
  ℕ, ◌≡◌, Bool, true, false, not, ◌&&◌, ◌||◌, Option, none, some, ◌==◌, is_none, is_some, scalar,
  arith, Option-cases, inl, inr, ==→eq,
}
use buddy_web_ver.Errors.{
  InvitationSendReason, Exception, send_error, capability_error, Result, ok, err, ◌>>=◌, ◌>>◌,
  raise_if, or_raise, ok_inv, Result-cases,
}
use buddy_web_ver.Models.User.{User, is_user_role}
use buddy_web_ver.Models.Profile.{StudentProfile}
use buddy_web_ver.Preferences.{Unicode}
use buddy_web_ver.Db.{Db}
use buddy_web_ver.Db.Tables.{scalar_sound}
use buddy_web_ver.Matching.Eligibility.{EligibleMatchingPrincipal, matching_pair_is_eligible}
use buddy_web_ver.Profiles.Access.{
  VerifiedBuddyPrincipal, get_eligible_matching_principal, principal_user,
}

pub record SendParticipants : Type 0 where
  pub sender_user : User
  pub recipient_user : User
  pub sender : EligibleMatchingPrincipal
  pub recipient : EligibleMatchingPrincipal

abbrev pub sender_ineligible : Exception
sender_ineligible = send_error InvitationSendReason.sender_ineligible

abbrev pub recipient_ineligible : Exception
recipient_ineligible = send_error InvitationSendReason.recipient_ineligible

unfoldable pub is_available_user : Option User → Bool
is_available_user none = false
is_available_user (some u) =
    is_user_role u.role && u.is_active && is_none u.deleted_at && is_some u.email_verified_at

-- `recipient.semester_id is None or recipient.semester_id != sender.semester_id`
abbrev pub other_semester : ℕ → Option ℕ → Bool
other_semester semester none = true
other_semester semester (some other) = not (other == semester)

-- `except BuddyCapabilityError: raise`
abbrev pub instead : Exception → Exception → Exception
instead e (capability_error reason) = e
instead e other = other

abbrev pub map_failure {ℓ} : {A : Type ℓ} → (Exception → Exception) → Result A → Result A
map_failure f (ok a) = ok a
map_failure f (err e) = err (f e)

abbrev pub user_by_id : Db → ℕ → Option User
user_by_id db id = scalar (λ u. u.id == id) db.users

abbrev pub profile_by_user_id : Db → ℕ → Option StudentProfile
profile_by_user_id db id = scalar (λ p. p.user_id == id) db.profiles

-- The locked users.
pub record LockedUsers : Type 0 where
  pub sender_user_id : ℕ
  pub recipient_user_id : ℕ
  pub sender_user : User
  pub recipient_user : User

pub record LockedProfiles : Type 0 where
  pub sender_profile : StudentProfile
  pub recipient_profile : StudentProfile

unfoldable pub lock_users : ℕ → ℕ → Db → Result LockedUsers
lock_users sender_user_id recipient_profile_id db = do
  target ←
      or_raise (scalar (λ p. p.id == recipient_profile_id && is_none p.deleted_at) db.profiles)
        recipient_ineligible
  raise_if (target.user_id == sender_user_id) (send_error InvitationSendReason.self_not_allowed)
  raise_if (not (is_available_user (user_by_id db sender_user_id))) sender_ineligible
  raise_if (not (is_available_user (user_by_id db target.user_id))) recipient_ineligible
  sender_user ← or_raise (user_by_id db sender_user_id) sender_ineligible
  recipient_user ← or_raise (user_by_id db target.user_id) recipient_ineligible
  semester ← or_raise sender_user.semester_id sender_ineligible
  raise_if (other_semester semester recipient_user.semester_id) recipient_ineligible
  ok (record {
    sender_user_id = sender_user_id;
    recipient_user_id = target.user_id;
    sender_user = sender_user;
    recipient_user = recipient_user;
  })

unfoldable pub lock_profiles : ℕ → LockedUsers → Db → Result LockedProfiles
lock_profiles recipient_profile_id users db = do
  sender_profile ← or_raise (profile_by_user_id db users.sender_user_id) sender_ineligible
  raise_if (is_some sender_profile.deleted_at) sender_ineligible
  recipient_profile ← or_raise (profile_by_user_id db users.recipient_user_id) recipient_ineligible
  raise_if
      (not (recipient_profile.id == recipient_profile_id) || is_some recipient_profile.deleted_at)
      recipient_ineligible
  ok (record { sender_profile = sender_profile; recipient_profile = recipient_profile })

-- `matching_pair_is_eligible`, as the guard that it is used as.
abbrev pub require_pair :
    LockedUsers → EligibleMatchingPrincipal → EligibleMatchingPrincipal → Result SendParticipants
require_pair users sender recipient = do
  raise_if (not (matching_pair_is_eligible sender recipient)) recipient_ineligible
  ok (record {
    sender_user = users.sender_user;
    recipient_user = users.recipient_user;
    sender = sender;
    recipient = recipient;
  })

locked_sender :
    (sender_user_id recipient_profile_id : ℕ) (db : Db) (users : LockedUsers)
    → lock_users sender_user_id recipient_profile_id db ≡ ok users
    → users.sender_user.id ≡ sender_user_id
unfolding lock_users
locked_sender sender_user_id recipient_profile_id db users h =
    elim (Option-cases (user_by_id db sender_user_id)) [
      | inl missing ↦ ground arith
      | inr found ↦
          let (u, is_u) = found in
          let key = scalar_sound (λ u. u.id == sender_user_id) u db.users is_u in
          ground (arith, ==→eq u.id sender_user_id key)
    ]

module _ (unicode : Unicode) where
  -- One participant's current eligibility, with the reason that its failure has.
  abbrev pub revalidate : Exception → User → StudentProfile → Db → Result EligibleMatchingPrincipal
  revalidate refusal u profile db =
      map_failure (instead refusal)
        (get_eligible_matching_principal unicode (record { owner = u; profile = profile }) db)

  unfoldable pub lock_and_revalidate_pair : ℕ → ℕ → Db → Result SendParticipants
  lock_and_revalidate_pair sender_user_id recipient_profile_id db = do
    users ← lock_users sender_user_id recipient_profile_id db
    profiles ← lock_profiles recipient_profile_id users db
    sender ← revalidate sender_ineligible users.sender_user profiles.sender_profile db
    recipient ← revalidate recipient_ineligible users.recipient_user profiles.recipient_profile db
    require_pair users sender recipient

  revalidated :
      (refusal : Exception) (u : User) (profile : StudentProfile) (db : Db)
      (e : EligibleMatchingPrincipal)
      → revalidate refusal u profile db ≡ ok e
      → e.user_id ≡ u.id
  unfolding get_eligible_matching_principal
  revalidated refusal u profile db e h =
      let principal : VerifiedBuddyPrincipal = record { owner = u; profile = profile } in
      elim (Result-cases (get_eligible_matching_principal unicode principal db)) [
        | inl found ↦
            let (e', is_e) = found in
            let same = rw is_e at h in
            let made = principal_user unicode principal db e' is_e in ground arith
        | inr failed ↦ let wrong = rw failed.1 at h in cc
      ]

  -- Participants that pass are an eligible pair, each the locked user that it was made of, and the
  -- sender is the one that was asked for.
  pub participants_checked :
      (sender_user_id recipient_profile_id : ℕ) (db : Db) (p : SendParticipants)
      → lock_and_revalidate_pair sender_user_id recipient_profile_id db ≡ ok p
      → (matching_pair_is_eligible p.sender p.recipient ≡ true)
        × (p.sender.user_id ≡ sender_user_id)
        × (p.recipient.user_id ≡ p.recipient_user.id)
  unfolding lock_and_revalidate_pair
  participants_checked sender_user_id recipient_profile_id db p h =
      let (users, is_users, h1) =
        ok_inv (lock_users sender_user_id recipient_profile_id db) _ p h in
      let (profiles, _, h2) = ok_inv (lock_profiles recipient_profile_id users db) _ p h1 in
      let (sender, is_sender, h3) =
        ok_inv (revalidate sender_ineligible users.sender_user profiles.sender_profile db) _ p h2 in
      let (recipient, is_recipient, h4) =
        ok_inv (revalidate recipient_ineligible users.recipient_user profiles.recipient_profile db)
          _ p h3 in
      let from =
        revalidated sender_ineligible users.sender_user profiles.sender_profile db sender
          is_sender in
      let to =
        revalidated recipient_ineligible users.recipient_user profiles.recipient_profile db
          recipient is_recipient in
      let asked = locked_sender sender_user_id recipient_profile_id db users is_users in
      (ground arith, ground arith, ground arith)
