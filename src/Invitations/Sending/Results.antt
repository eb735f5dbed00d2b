-- ===== src/Invitations/Sending/Results.antt =====
-- The guarantees of a send that succeeds.
use buddy_web_ver.Base.{
  ℕ, ◌+◌, ◌≤◌, ◌<◌, ◌≡◌, ◌≢◌, refl, ◌∙◌, ap, sym, true, some, List, ◌∷◌, arith, length,
}
use buddy_web_ver.Errors.{pending, ok}
use buddy_web_ver.Time.{Datetime, naive, aware, utc_now}
use buddy_web_ver.Text.{Text}
use buddy_web_ver.Models.Invitation.{
  MatchingInvitation, IsStored, invitation_expiry_interval, message_canonical,
}
use buddy_web_ver.Models.Outbox.{TransactionalOutbox}
use buddy_web_ver.Preferences.{Unicode}
use buddy_web_ver.Db.{Db}
use buddy_web_ver.Matching.Eligibility.{EligibleMatchingPrincipal, matching_pair_is_eligible}
use buddy_web_ver.Outbox.Fresh.{row_event}
use buddy_web_ver.Invitations.Message.{canonicalize_stable}
use buddy_web_ver.Invitations.Sending.{send_matching_invitation, new_invitation, created_event}
use buddy_web_ver.Invitations.Sending.Participants.{participants_checked}
use buddy_web_ver.Invitations.Sending.Rejections.{pending_of, max_outgoing_pending_invitations}
use buddy_web_ver.Invitations.Sending.Sent.{send_result}

new-IsStored :
    (new_id sender_id recipient_id : ℕ) (message : Text) (now : ℕ)
    → sender_id ≢ recipient_id
    → message_canonical message ≡ true
    → IsStored (
        new_invitation new_id sender_id recipient_id message (now + invitation_expiry_interval) now)
new-IsStored new_id sender_id recipient_id message now other canonical = record {
  has_created_at = refl;
  distinct_participants = ground arith;
  canonical_pair = ground arith;
  has_canonical_message = canonical;
  has_expiry_interval = ground arith;
  has_status_timestamps = refl;
  has_timestamp_order = refl;
  version_positive = refl;
}

same_clock : (clock : Datetime) (s now : ℕ) → utc_now clock ≡ ok s → clock ≡ aware now → s ≡ now
same_clock (naive t) s now h e = cc
same_clock (aware t) s now h e = ground arith

one_more :
    (u now : ℕ) (i : MatchingInvitation) (left : List MatchingInvitation)
    → length (pending_of u now left) < max_outgoing_pending_invitations
    → length (pending_of u now (i ∷ left)) ≤ max_outgoing_pending_invitations
one_more u now i left h = ground arith

written_only :
    (db db' : Db) (left : List MatchingInvitation) (rows : List TransactionalOutbox)
    → db' ≡ record db { invitations = left; outbox = rows }
    → db' ≡ record db { invitations = db'.invitations; outbox = rows }
written_only db db' left rows h = rw h refl

pub pair_distinct :
    (a b : EligibleMatchingPrincipal) → matching_pair_is_eligible a b ≡ true → a.user_id ≢ b.user_id
unfolding matching_pair_is_eligible
pair_distinct a b h e = ground arith

module _ (unicode : Unicode) (new_id new_outbox_id : ℕ) (sender : EligibleMatchingPrincipal)
    (recipient_profile_id : ℕ) (message : Text) (clock : Datetime) (db db' : Db)
    (i : MatchingInvitation)
    (h : send_matching_invitation unicode new_id new_outbox_id sender recipient_profile_id message
        clock db
      ≡ ok (i, db')) where
  -- A send that succeeds leaves the sender with at most 30 invitations that are effectively pending
  -- at its time.
  pub send_capacity :
      (now : ℕ)
      → clock ≡ aware now
      → length (pending_of sender.user_id now db'.invitations) ≤ max_outgoing_pending_invitations
  send_capacity now is_clock =
      let s =
        send_result unicode new_id new_outbox_id sender recipient_profile_id message clock db db' i
          h in
      let (_, from, _) =
        participants_checked unicode sender.user_id recipient_profile_id db s.participants
          s.checked in
      let at : s.now ≡ now = same_clock clock s.now now s.is_now is_clock in
      let room = rw (at, from) at s.room in rw s.written (one_more sender.user_id now i s.left room)

  -- The new invitation is pending, goes from the sender to somebody else, and meets every check
  -- constraint of the table.
  pub send-IsStored : IsStored i × (i.status ≡ pending) × (i.sender_id ≡ sender.user_id)
  send-IsStored =
      let s =
        send_result unicode new_id new_outbox_id sender recipient_profile_id message clock db db' i
          h in
      let (pair, from, _) =
        participants_checked unicode sender.user_id recipient_profile_id db s.participants
          s.checked in
      let (_, _, canonical, _) = canonicalize_stable message s.canonical s.canonicalized in
      let p = s.participants in
      let made =
        new-IsStored new_id p.sender.user_id p.recipient.user_id s.canonical.value s.now
          (pair_distinct p.sender p.recipient pair) canonical in
      (
        rw s.is_new made,
        ap (λ (j : MatchingInvitation). j.status) s.is_new,
        ap (λ (j : MatchingInvitation). j.sender_id) s.is_new ∙ from,
      )

  -- A send that succeeds enqueues one event, about the new invitation and for its recipient, and
  -- writes nothing else but invitations.
  pub send_writes :
      (row : TransactionalOutbox) × (db'
        ≡ record db { invitations = db'.invitations; outbox = row ∷ db.outbox })
      × (row.aggregate_id ≡ i.id)
      × (row.recipient_user_id ≡ some i.recipient_id)
  send_writes =
      let s =
        send_result unicode new_id new_outbox_id sender recipient_profile_id message clock db db' i
          h in
      let (_, _, to) =
        participants_checked unicode sender.user_id recipient_profile_id db s.participants
          s.checked in
      let (about, for_) =
        row_event new_outbox_id (created_event i s.participants.recipient_user) (aware s.now) s.row
          s.queued in
      (
        s.row,
        written_only db db' (i ∷ s.left) (s.row ∷ db.outbox) s.written,
        about,
        for_ ∙ ap some (sym to ∙ sym (ap (λ (j : MatchingInvitation). j.recipient_id) s.is_new)),
      )
