-- ===== src/Invitations/Sending/Sent.antt =====
-- A send that succeeds, taken apart into its steps.
use buddy_web_ver.Base.{ℕ, ◌+◌, ◌<◌, ◌≡◌, ◌∙◌, ap, false, List, ◌∷◌, any, length}
use buddy_web_ver.Errors.{ok}
use buddy_web_ver.Time.{Datetime, aware, utc_now}
use buddy_web_ver.Text.{Text}
use buddy_web_ver.Models.Invitation.{MatchingInvitation, invitation_expiry_interval}
use buddy_web_ver.Models.Outbox.{TransactionalOutbox}
use buddy_web_ver.Preferences.{Unicode}
use buddy_web_ver.Db.{Db, read, lift, bind-ok_inv, ◌>>=◌, ◌>>◌, lift_then, read_then}
use buddy_web_ver.Db.Tables.{clashes}
use buddy_web_ver.Matching.Eligibility.{EligibleMatchingPrincipal}
use buddy_web_ver.Outbox.Event.{outbox_row}
use buddy_web_ver.Invitations.Message.{CanonicalInvitationMessage, canonicalize_invitation_message}
use buddy_web_ver.Invitations.Sending.{
  send_matching_invitation, send_between, store_invitation, new_invitation, created_event,
}
use buddy_web_ver.Invitations.Sending.Participants.{SendParticipants, lock_and_revalidate_pair}
use buddy_web_ver.Invitations.Sending.Rejections.{
  expire_or_reject_pending_pair, reject_active_pair, require_pending_capacity, pending_of,
  max_outgoing_pending_invitations,
}
use buddy_web_ver.Invitations.Sending.Effects.{pending_left, inactive_left, capacity_left, stored}

-- The steps of a send that succeeded: `left` are the invitations that expiring the pair's pending one
-- left.
pub record Sent (unicode : Unicode) (sender_user_id recipient_profile_id : ℕ) (message : Text)
    (clock : Datetime) (new_id new_outbox_id : ℕ) (db db' : Db) (i : MatchingInvitation)
    : Type 0 where
  pub participants : SendParticipants
  pub canonical : CanonicalInvitationMessage
  pub now : ℕ
  pub left : List MatchingInvitation
  pub row : TransactionalOutbox
  pub checked :
      lock_and_revalidate_pair unicode sender_user_id recipient_profile_id db ≡ ok participants
  pub is_now : utc_now clock ≡ ok now
  pub canonicalized : canonicalize_invitation_message message ≡ ok canonical
  pub is_new :
      i
      ≡ new_invitation new_id participants.sender.user_id participants.recipient.user_id
          canonical.value
          (now + invitation_expiry_interval)
          now
  pub room :
      length (pending_of participants.sender.user_id now left) < max_outgoing_pending_invitations
  pub no_clash : any (clashes i) left ≡ false
  pub queued :
      outbox_row new_outbox_id (created_event i participants.recipient_user) (aware now) ≡ ok row
  pub written : db' ≡ record db { invitations = i ∷ left; outbox = row ∷ db.outbox }

assemble :
    (unicode : Unicode) (sender_user_id recipient_profile_id : ℕ) (message : Text)
    (clock : Datetime) (new_id new_outbox_id : ℕ) (p : SendParticipants)
    (m : CanonicalInvitationMessage) (now : ℕ) (db db₁ db₂ db₃ db' : Db) (i : MatchingInvitation)
    (row : TransactionalOutbox)
    → lock_and_revalidate_pair unicode sender_user_id recipient_profile_id db ≡ ok p
    → canonicalize_invitation_message message ≡ ok m
    → utc_now clock ≡ ok now
    → db₁ ≡ record db { invitations = db₁.invitations }
    → db₂ ≡ db₁
    → db₃ ≡ db₂
    → length (pending_of p.sender.user_id now db₂.invitations) < max_outgoing_pending_invitations
    → let made =
        new_invitation new_id p.sender.user_id p.recipient.user_id m.value
          (now + invitation_expiry_interval)
          now in
      i ≡ made
      → any (clashes made) db₃.invitations ≡ false
      → outbox_row new_outbox_id (created_event made p.recipient_user) (aware now) ≡ ok row
      → db' ≡ record db₃ { invitations = made ∷ db₃.invitations; outbox = row ∷ db₃.outbox }
      → Sent unicode sender_user_id recipient_profile_id message clock new_id new_outbox_id db db' i
assemble unicode u v message clock new_id new_outbox_id p m now db db₁ db₂ db₃ db' i row is_p is_m
      is_now only same same' room is_made fresh is_row written =
    let both = same' ∙ same in
    let add : Db → Db = λ d. record d {
      invitations =
          new_invitation new_id p.sender.user_id p.recipient.user_id m.value
            (now + invitation_expiry_interval) now
          ∷ d.invitations;
      outbox = row ∷ d.outbox;
    } in
    record {
      participants = p;
      canonical = m;
      now = now;
      left = db₁.invitations;
      row = row;
      checked = is_p;
      is_now = is_now;
      canonicalized = is_m;
      is_new = is_made;
      room = rw same at room;
      no_clash = rw is_made (rw both at fresh);
      queued = rw is_made is_row;
      written = rw is_made (written ∙ ap add (both ∙ only));
    }

between_result :
    (unicode : Unicode) (sender_user_id recipient_profile_id : ℕ) (message : Text)
    (clock : Datetime) (new_id new_outbox_id : ℕ) (p : SendParticipants)
    (m : CanonicalInvitationMessage) (now : ℕ) (db db' : Db) (i : MatchingInvitation)
    → lock_and_revalidate_pair unicode sender_user_id recipient_profile_id db ≡ ok p
    → canonicalize_invitation_message message ≡ ok m
    → utc_now clock ≡ ok now
    → send_between new_id new_outbox_id p m.value now db ≡ ok (i, db')
    → Sent unicode sender_user_id recipient_profile_id message clock new_id new_outbox_id db db' i
unfolding send_between
between_result unicode sender_user_id recipient_profile_id message clock new_id new_outbox_id p m
      now db db' i is_p is_m is_now h =
    let u = p.sender.user_id in
    let v = p.recipient.user_id in
    let store = store_invitation new_id new_outbox_id p m.value now in
    let (_, db₁, expired, h1) =
      bind-ok_inv (expire_or_reject_pending_pair u v now)
        (λ _. reject_active_pair u v >> (require_pending_capacity u now >> store)) db db' i h in
    let (_, db₂, inactive, h2) =
      bind-ok_inv (reject_active_pair u v) (λ _. require_pending_capacity u now >> store) db₁ db' i
        h1 in
    let (_, db₃, capacity, h3) =
      bind-ok_inv (require_pending_capacity u now) (λ _. store) db₂ db' i h2 in
    let only = pending_left u v now db db₁ expired in
    let same = inactive_left u v db₁ db₂ inactive in
    let (same', room) = capacity_left u now db₂ db₃ capacity in
    let (is_made, fresh, row, is_row, written) =
      stored new_id new_outbox_id p m.value now db₃ db' i h3 in
    assemble unicode sender_user_id recipient_profile_id message clock new_id new_outbox_id p m now
      db db₁ db₂ db₃ db' i row is_p is_m is_now only same same' room is_made fresh is_row written

module _ (unicode : Unicode) (new_id new_outbox_id : ℕ) (sender : EligibleMatchingPrincipal)
    (recipient_profile_id : ℕ) (message : Text) (clock : Datetime) (db db' : Db)
    (i : MatchingInvitation)
    (h : send_matching_invitation unicode new_id new_outbox_id sender recipient_profile_id message
        clock db
      ≡ ok (i, db')) where
  pub send_result :
      Sent unicode sender.user_id recipient_profile_id message clock new_id new_outbox_id db db' i
  unfolding send_matching_invitation
  send_result =
      let locks = lock_and_revalidate_pair unicode sender.user_id recipient_profile_id in
      let (m, is_m, h1) =
        lift_then (canonicalize_invitation_message message)
          (λ m. lift (utc_now clock) >>= λ now.
            read locks >>= λ p. send_between new_id new_outbox_id p m.value now)
          db db' i h in
      let (now, is_now, h2) =
        lift_then (utc_now clock)
          (λ now. read locks >>= λ p. send_between new_id new_outbox_id p m.value now) db db' i
          h1 in
      let (p, is_p, h3) =
        read_then locks (λ p. send_between new_id new_outbox_id p m.value now) db db' i h2 in
      between_result unicode sender.user_id recipient_profile_id message clock new_id new_outbox_id
        p m now db db' i is_p is_m is_now h3
