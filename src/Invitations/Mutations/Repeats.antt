-- ===== src/Invitations/Mutations/Repeats.antt =====
-- Repeating Decline or Cancel changes nothing, and neither touches another invitation.
use buddy_web_ver.Base.{
  ℕ, ◌≤◌, ◌<◌, ◌≡◌, ◌≢◌, refl, ◌∙◌, sym, ◌⊎◌, inl, inr, true, some, arith, scalar,
}
use buddy_web_ver.Errors.{InvitationStatus, pending, declined, cancelled, ok}
use buddy_web_ver.Time.{Datetime, aware}
use buddy_web_ver.Models.Invitation.{MatchingInvitation, stamp}
use buddy_web_ver.Db.{Db, ◌>>=◌}
use buddy_web_ver.Db.Tables.{find, find-put_ne, scalar-put, scalar_sound}
use buddy_web_ver.Invitations.Mutations.{
  InvitationMutationResult, recipient, sender, InvitationOwner, is_owned,
  decline_matching_invitation, cancel_matching_invitation, decline_locked, cancel_locked,
}
use buddy_web_ver.Invitations.Mutations.Outcome.{
  Outcome, versioned, written, load_found, decline_outcome, cancel_outcome,
}

-- The two ways in which a call succeeds.
Outcome_ok :
    (target : InvitationStatus) (t : ℕ) (i : MatchingInvitation) (db db' : Db)
    (r : InvitationMutationResult)
    → Outcome target t i db ≡ ok (r, db')
    → (r ≡ record { invitation_id = i.id; status = target })
      × (((i.status ≡ target) × (db' ≡ db))
          ⊎ ((i.status ≡ pending) × (t < i.expires_at) × (db' ≡ written (stamp target t i) db)))
Outcome_ok target t i db db' r e = ground arith

module _ (target : InvitationStatus) (t u k : ℕ) (o : InvitationOwner)
    (i : MatchingInvitation) where
  stamp_owned : is_owned k u o i ≡ true → is_owned k u o (versioned (stamp target t i)) ≡ true
  stamp_owned h = ground arith

  -- After a call that succeeded, the same query finds the invitation in the target state.
  found_after :
      (db db' : Db) (r : InvitationMutationResult)
      → (target ≡ declined) ⊎ (target ≡ cancelled)
      → scalar (is_owned k u o) db.invitations ≡ some i
      → Outcome target t i db ≡ ok (r, db')
      → (j : MatchingInvitation) × (scalar (is_owned k u o) db'.invitations ≡ some j)
        × (r ≡ record { invitation_id = j.id; status = target })
        × (j.status ≡ target)
  found_after db db' r d found e =
      let (er, ways) = Outcome_ok target t i db db' r e in
      elim ways [
        | inl (es, edb) ↦ (i, rw edb found, er, es)
        | inr (ep, lt, edb) ↦ (
          versioned (stamp target t i),
          rw edb (
              scalar-put (versioned (stamp target t i)) (is_owned k u o) i db.invitations
                (stamp_owned (scalar_sound (is_owned k u o) i db.invitations found)) (ground arith)
                found),
          er ∙ ground arith,
          ground arith,
        )
      ]

declined_again :
    (u k : ℕ) (at : Datetime) (db : Db) (i : MatchingInvitation)
    → scalar (is_owned k u recipient) db.invitations ≡ some i
    → i.status ≡ declined
    → decline_matching_invitation u k at db
      ≡ ok (record { invitation_id = i.id; status = declined }, db)
unfolding decline_matching_invitation decline_locked
declined_again u k at db i found h = rw (load_found k u recipient db i found, ◌>>=◌) (ground arith)

-- Declining again, at whatever time, gives the same answer and changes nothing.
pub decline_twice :
    (u k t c : ℕ) (later : Datetime) (db db' : Db) (r : InvitationMutationResult)
    (i : MatchingInvitation)
    → scalar (is_owned k u recipient) db.invitations ≡ some i
    → i.created_at ≡ some c
    → c ≤ t
    → decline_matching_invitation u k (aware t) db ≡ ok (r, db')
    → decline_matching_invitation u k later db' ≡ ok (r, db')
decline_twice u k t c later db db' r i found created h e =
    let (j, found', er, es) =
      found_after declined t u k recipient i db db' r (inl refl) found
        (sym (decline_outcome u k t c db i found created h) ∙ e) in
    rw er (declined_again u k later db' j found' es)

cancelled_again :
    (u k : ℕ) (at : Datetime) (db : Db) (i : MatchingInvitation)
    → scalar (is_owned k u sender) db.invitations ≡ some i
    → i.status ≡ cancelled
    → cancel_matching_invitation u k at db
      ≡ ok (record { invitation_id = i.id; status = cancelled }, db)
unfolding cancel_matching_invitation cancel_locked
cancelled_again u k at db i found h = rw (load_found k u sender db i found, ◌>>=◌) (ground arith)

-- Cancelling again, at whatever time, gives the same answer and changes nothing.
pub cancel_twice :
    (u k t c : ℕ) (later : Datetime) (db db' : Db) (r : InvitationMutationResult)
    (i : MatchingInvitation)
    → scalar (is_owned k u sender) db.invitations ≡ some i
    → i.created_at ≡ some c
    → c ≤ t
    → cancel_matching_invitation u k (aware t) db ≡ ok (r, db')
    → cancel_matching_invitation u k later db' ≡ ok (r, db')
cancel_twice u k t c later db db' r i found created h e =
    let (j, found', er, es) =
      found_after cancelled t u k sender i db db' r (inr refl) found
        (sym (cancel_outcome u k t c db i found created h) ∙ e) in
    rw er (cancelled_again u k later db' j found' es)

-- A Decline that succeeds leaves the invitations with other keys, the matches and the outbox as
-- they were.
pub decline_frame :
    (u k n t c : ℕ) (db db' : Db) (r : InvitationMutationResult) (i : MatchingInvitation)
    → scalar (is_owned k u recipient) db.invitations ≡ some i
    → i.created_at ≡ some c
    → c ≤ t
    → n ≢ k
    → decline_matching_invitation u k (aware t) db ≡ ok (r, db')
    → (find n db'.invitations ≡ find n db.invitations)
      × (db'.matches ≡ db.matches)
      × (db'.outbox ≡ db.outbox)
decline_frame u k n t c db db' r i found created h ne e =
    let (_, ways) =
      Outcome_ok declined t i db db' r (sym (decline_outcome u k t c db i found created h) ∙ e) in
    let owned = scalar_sound (is_owned k u recipient) i db.invitations found in
    let e' : n ≢ i.id = ground arith in
    elim ways [
      | inl (es, edb) ↦ rw edb (refl, refl, refl)
      | inr (ep, lt, edb) ↦
          rw edb (find-put_ne (versioned (stamp declined t i)) n db.invitations e', refl, refl)
    ]
