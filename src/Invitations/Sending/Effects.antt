-- ===== src/Invitations/Sending/Effects.antt =====
-- What a send that succeeds has checked and written.
use buddy_web_ver.Base.{
  ℕ, ◌+◌, ◌<◌, ◌≡◌, refl, ◌∙◌, ap, false, Option, none, some, ◌∷◌, ltb, any, arith, scalar, length,
  Bool-cases, inl, inr, ◌⊎◌,
}
use buddy_web_ver.Errors.{ok}
use buddy_web_ver.Time.{Datetime, aware}
use buddy_web_ver.Text.{Text}
use buddy_web_ver.Models.Match.{canonical_user_pair}
use buddy_web_ver.Models.Invitation.{
  MatchingInvitation, expire, invitation_expiry_interval, invitation_expires_at,
}
use buddy_web_ver.Models.Outbox.{TransactionalOutbox}
use buddy_web_ver.Db.{
  Db, query, save_invitation, insert_invitation, map_error, pure, bind-ok_inv, ◌>>=◌, ◌>>◌,
  lift_then,
}
use buddy_web_ver.Db.Tables.{put, clashes}
use buddy_web_ver.Outbox.Event.{EmailEvent, outbox_row}
use buddy_web_ver.Outbox.Enqueue.{enqueue_transactional_email, insert_outbox}
use buddy_web_ver.Invitations.Sending.{
  store_invitation, new_invitation, created_event, pending_exists_if_unique,
}
use buddy_web_ver.Invitations.Sending.Participants.{SendParticipants}
use buddy_web_ver.Invitations.Sending.Rejections.{
  expire_or_reject, expire_or_reject_pending_pair, reject_active_pair, require_pending_capacity,
  pending_of, max_outgoing_pending_invitations, is_pending_pair,
}

pub capacity_left :
    (u at : ℕ) (db db' : Db)
    → require_pending_capacity u at db ≡ ok (tt, db')
    → (db' ≡ db) × (length (pending_of u at db.invitations) < max_outgoing_pending_invitations)
unfolding require_pending_capacity
capacity_left u at db db' h = (ground arith, ground arith)

pub inactive_left : (u v : ℕ) (db db' : Db) → reject_active_pair u v db ≡ ok (tt, db') → db' ≡ db
unfolding reject_active_pair
inactive_left u v db db' h = ground arith

expired_left :
    (at : ℕ) (o : Option MatchingInvitation) (db db' : Db)
    → expire_or_reject at o db ≡ ok (tt, db')
    → (db' ≡ db)
      ⊎ ((j : MatchingInvitation) × (db' ≡ record db { invitations = put j db.invitations }))
unfolding save_invitation
expired_left at none db db' h = inl (ground arith)
expired_left at (some i) db db' h = elim (Bool-cases (ltb at i.expires_at)) [
  | inl e ↦ let refused = rw e at h in cc
  | inr e ↦
      let (j, is_j, saved) =
        lift_then (expire (aware at) i) (λ j. save_invitation j) db db' tt (rw e at h) in
      inr (record j { version = j.version + 1 }, ground arith)
]

-- An expired row of the pair is written back, and nothing else.
pub pending_left :
    (u v at : ℕ) (db db' : Db)
    → expire_or_reject_pending_pair u v at db ≡ ok (tt, db')
    → db' ≡ record db { invitations = db'.invitations }
unfolding expire_or_reject_pending_pair
pending_left u v at db db' h =
    let (pair, is_pair, rest) =
      lift_then (canonical_user_pair u v)
        (λ pair. query (λ db. scalar (is_pending_pair pair) db.invitations) >>= λ found.
          expire_or_reject at found)
        db db' tt h in
    elim (expired_left at (scalar (is_pending_pair pair) db.invitations) db db' rest) [
      | inl nothing ↦ rw nothing refl
      | inr done ↦ let (j, now_) = done in rw now_ refl
    ]

inserted :
    (row : TransactionalOutbox) (db db' : Db)
    → insert_outbox row db ≡ ok (tt, db')
    → db' ≡ record db { outbox = row ∷ db.outbox }
unfolding insert_outbox
inserted row db db' h = ground arith

pub enqueued :
    (id : ℕ) (event : EmailEvent) (clock : Datetime) (db db' : Db) (row : TransactionalOutbox)
    → enqueue_transactional_email id event clock db ≡ ok (row, db')
    → (outbox_row id event clock ≡ ok row) × (db' ≡ record db { outbox = row ∷ db.outbox })
unfolding enqueue_transactional_email
enqueued id event clock db db' row h =
    let (made, is_made, rest) =
      lift_then (outbox_row id event clock) (λ row. insert_outbox row >> pure row) db db' row h in
    let (_, db₁, written, same) =
      bind-ok_inv (insert_outbox made) (λ _. pure made) db db' row rest in
    let left = inserted made db db₁ written in (ground arith, ground arith)

inserted_invitation :
    (i : MatchingInvitation) (db db' : Db)
    → map_error pending_exists_if_unique (insert_invitation i) db ≡ ok (tt, db')
    → (any (clashes i) db.invitations ≡ false)
      × (db' ≡ record db { invitations = i ∷ db.invitations })
unfolding insert_invitation
inserted_invitation i db db' h = elim (Bool-cases (any (clashes i) db.invitations)) [
  | inl e ↦ let refused = rw (e, map_error) at h in cc
  | inr e ↦ let written = rw (e, map_error) at h in (e, ground arith)
]

-- The row and its event.
pub stored :
    (new_id new_outbox_id : ℕ) (p : SendParticipants) (message : Text) (now : ℕ) (db db' : Db)
    (i : MatchingInvitation)
    → store_invitation new_id new_outbox_id p message now db ≡ ok (i, db')
    → let made =
        new_invitation new_id p.sender.user_id p.recipient.user_id message
          (now + invitation_expiry_interval)
          now in
      (i ≡ made)
      × (any (clashes made) db.invitations ≡ false)
      × (row : TransactionalOutbox) × (outbox_row new_outbox_id
            (created_event made p.recipient_user)
            (aware now)
          ≡ ok row)
      × (db' ≡ record db { invitations = made ∷ db.invitations; outbox = row ∷ db.outbox })
unfolding store_invitation invitation_expires_at
stored new_id new_outbox_id p message now db db' i h =
    let made =
      new_invitation new_id p.sender.user_id p.recipient.user_id message
        (now + invitation_expiry_interval) now in
    let event = created_event made p.recipient_user in
    let (_, written, is_written, rest) =
      bind-ok_inv (map_error pending_exists_if_unique (insert_invitation made))
        (λ _. enqueue_transactional_email new_outbox_id event (aware now) >> pure made) db db' i
        h in
    let (fresh, left) = inserted_invitation made db written is_written in
    let (row, db₁, queued, same) =
      bind-ok_inv (enqueue_transactional_email new_outbox_id event (aware now)) (λ _. pure made)
        written db' i rest in
    let (is_row, left') = enqueued new_outbox_id event (aware now) written db₁ row queued in
    let is_made : i ≡ made = ground arith in
    let same_db : db' ≡ db₁ = ground arith in
    let queue : Db → Db = λ d. record d { outbox = row ∷ d.outbox } in
    (is_made, fresh, row, is_row, same_db ∙ left' ∙ ap queue left)
