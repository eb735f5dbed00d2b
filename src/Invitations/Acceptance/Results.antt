-- ===== src/Invitations/Acceptance/Results.antt =====
-- What an acceptance guarantees.
use buddy_web_ver.Base.{
  ℕ, ◌≡◌, refl, ◌∙◌, ap, sym, subst, inl, inr, Bool, true, false, ◌&&◌, some, ◌∷◌, ltb, leb, ◌==◌,
  if◌then◌else◌, is_none, scalar, arith,
}
use buddy_web_ver.Errors.{
  InvitationStatus, pending, accepted, declined, cancelled, Result, ok, err, or_raise_inv,
}
use buddy_web_ver.Time.{Datetime, aware, utc_now}
use buddy_web_ver.Models.Match.{BuddyMatch, BuddyConversation}
use buddy_web_ver.Models.Invitation.{MatchingInvitation, status_is}
use buddy_web_ver.Preferences.{Unicode}
use buddy_web_ver.Db.{Db, Session, lift, read, bind-ok, ◌>>=◌, ◌>>◌}
use buddy_web_ver.Db.Tables.{put, scalar-put, scalar_sound}
use buddy_web_ver.Invitations.Expiry.{effective_invitation_status}
use buddy_web_ver.Matching.Availability.{ToUtc}
use buddy_web_ver.Invitations.Acceptance.{
  InvitationAcceptanceResult, NewKeys, receipt, not_found, not_pending, accept_expired,
  load_owned_invitation, load_completed_result, by_status, require_effective, accept_observed,
  accept_matching_invitation,
}
use buddy_web_ver.Invitations.Acceptance.Stored.{saved_as}
use buddy_web_ver.Invitations.Acceptance.Outcome.{accept_result}
use buddy_web_ver.Invitations.Acceptance.Replays.{completes}

is_accepted : (s : InvitationStatus) → status_is s accepted ≡ true → s ≡ accepted
is_accepted accepted h = refl
is_accepted pending h = cc
is_accepted declined h = cc
is_accepted cancelled h = cc
is_accepted InvitationStatus.expired h = cc

-- The row is owned as before, once it is saved as accepted.
owned_after :
    (k user_id at : ℕ) (i : MatchingInvitation) (db db' : Db)
    → load_owned_invitation k user_id db ≡ ok i
    → db'.invitations ≡ put (saved_as i at) db.invitations
    → load_owned_invitation k user_id db' ≡ ok (saved_as i at)
unfolding load_owned_invitation
owned_after k user_id at i db db' owned wrote =
    let own : MatchingInvitation → Bool =
      λ i. i.id == k && i.recipient_id == user_id && is_none i.deleted_at in
    let found = or_raise_inv (scalar own db.invitations) not_found i owned in
    let still : scalar own db'.invitations ≡ some (saved_as i at) = rw wrote (
      scalar-put (saved_as i at) own i db.invitations (scalar_sound own i db.invitations found) refl
        found) in
    rw still refl

refuses :
    (s : InvitationStatus) (replay k : Session InvitationAcceptanceResult) (i : MatchingInvitation)
    (at : ℕ) (db : Db)
    → i.status ≡ s
    → status_is s accepted ≡ false
    → (status_is s pending && ltb at i.expires_at) ≡ false
    → by_status s replay (lift (ok at) >>= λ at. require_effective i at >> k) db
      ≡ err (if status_is s pending then accept_expired else not_pending)
unfolding effective_invitation_status
refuses accepted replay k i at db is_s unaccepted closed = cc
refuses pending replay k i at db is_s unaccepted closed =
    let late : leb i.expires_at at ≡ true = ground arith in rw (require_effective, is_s, late) refl
refuses declined replay k i at db is_s unaccepted closed = refl
refuses cancelled replay k i at db is_s unaccepted closed = refl
refuses InvitationStatus.expired replay k i at db is_s unaccepted closed = refl

module _ (to_utc : ToUtc) (unicode : Unicode) (keys : NewKeys) (user_id invitation_id : ℕ) where
  replays :
      (i : MatchingInvitation) (m : BuddyMatch) (c : BuddyConversation) (clock later : Datetime)
      (db : Db)
      → load_owned_invitation invitation_id user_id db ≡ ok i
      → i.status ≡ accepted
      → scalar (λ m. m.accepted_invitation_id == i.id && is_none m.deleted_at) db.matches ≡ some m
      → scalar (λ c. c.match_id == m.id) db.conversations ≡ some c
      → accept_matching_invitation to_utc unicode keys user_id invitation_id clock later db
        ≡ ok (receipt i.id m c, db)
  unfolding accept_matching_invitation
  replays i m c clock later db owned is_acc is_m is_c =
      let own : Db → Result MatchingInvitation = load_owned_invitation invitation_id user_id in
      let go : MatchingInvitation → Session InvitationAcceptanceResult = λ i.
        lift (utc_now clock) >>= λ at.
        require_effective i at >> accept_observed to_utc unicode keys user_id i later in
      bind-ok (read own) (λ i. by_status i.status (load_completed_result i) (go i)) db db i
        (rw (read, lift, owned) refl)
      ∙ subst
          (λ (s : InvitationStatus).
            by_status s (load_completed_result i) (go i) db ≡ ok (receipt i.id m c, db))
          (sym is_acc) (completes i m c db is_m is_c)

  -- Nobody accepts what is not open. An owned invitation that is neither accepted nor pending before
  -- its deadline is refused, at every time that the clock gives: with EXPIRED if it is pending, with
  -- NOT_PENDING otherwise.
  pub accept_refused :
      (i : MatchingInvitation) (at : ℕ) (later : Datetime) (db : Db)
      → load_owned_invitation invitation_id user_id db ≡ ok i
      → status_is i.status accepted ≡ false
      → (status_is i.status pending && ltb at i.expires_at) ≡ false
      → accept_matching_invitation to_utc unicode keys user_id invitation_id (aware at) later db
        ≡ err (if status_is i.status pending then accept_expired else not_pending)
  unfolding accept_matching_invitation
  accept_refused i at later db owned unaccepted closed =
      let own : Db → Result MatchingInvitation = load_owned_invitation invitation_id user_id in
      let go : MatchingInvitation → Session InvitationAcceptanceResult = λ i.
        lift (utc_now (aware at)) >>= λ at.
        require_effective i at >> accept_observed to_utc unicode keys user_id i later in
      bind-ok (read own) (λ i. by_status i.status (load_completed_result i) (go i)) db db i
        (rw (read, lift, owned) refl)
      ∙ refuses i.status (load_completed_result i)
          (accept_observed to_utc unicode keys user_id i later) i at db refl unaccepted closed

module _ (to_utc : ToUtc) (unicode : Unicode) (keys : NewKeys) (user_id invitation_id : ℕ)
    (clock later : Datetime) (db db' : Db) (r : InvitationAcceptanceResult)
    (h : accept_matching_invitation to_utc unicode keys user_id invitation_id clock later db
      ≡ ok (r, db')) where
  -- An acceptance that succeeded can be repeated, at whatever times and with whatever keys for new
  -- rows: it returns the same receipt and changes nothing.
  pub accept_twice :
      (keys' : NewKeys) (clock' later' : Datetime)
      → accept_matching_invitation to_utc unicode keys' user_id invitation_id clock' later' db'
        ≡ ok (r, db')
  accept_twice keys' clock' later' =
      let (i, owned, outcome) =
        accept_result to_utc unicode keys user_id invitation_id clock later db db' r h in
      elim outcome [
        | inl (is_acc, w) ↦
            rw (w.unchanged, w.is_receipt)
              (replays to_utc unicode keys' user_id invitation_id i w.buddy_match w.conversation
                clock' later' db owned (is_accepted i.status is_acc) w.its_match w.its_conversation)
        | inr w ↦
            let s = w.stored in
            let j = saved_as i w.at in
            let owned' =
              owned_after invitation_id user_id w.at i db db' owned
                (ap (λ (d : Db). d.invitations) s.wrote) in
            let first : scalar (λ m. m.accepted_invitation_id == j.id && is_none m.deleted_at)
                  (s.buddy_match ∷ db.matches)
                ≡ some s.buddy_match =
              ground (arith, s.of_invitation, s.is_live) in
            rw s.is_receipt (
              replays to_utc unicode keys' user_id invitation_id j s.buddy_match s.conversation
                clock' later' db' owned' refl (rw s.wrote first) s.its_conversation)
      ]
