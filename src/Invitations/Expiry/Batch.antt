-- ===== src/Invitations/Expiry/Batch.antt =====
-- The expiry batch: it never fails on stored rows, stays within its size, touches only the rows
-- that it reports, and leaves none due when its size allows.
use buddy_web_ver.Base.{
  ℕ, ◌+◌, ◌≤◌, ◌≡◌, refl, ◌∙◌, ap, Bool, true, not, ◌&&◌, List, [], ◌∷◌, arith, select, length,
  length-take, min, All, Bool-cases, inl, inr, le→leb,
}
use buddy_web_ver.Errors.{InvitationStatus, ok}
use buddy_web_ver.Time.{aware}
use buddy_web_ver.Models.Invitation.{MatchingInvitation, IsStored, stamp, expire}
use buddy_web_ver.Db.{Db, save_invitation, ◌>>=◌}
use buddy_web_ver.Invitations.Expiry.Order.{All-order_due, All-take_due, length-order_due, ids}
use buddy_web_ver.Db.Tables.{put}
use buddy_web_ver.Invitations.Expiry.{
  expired_pending_predicate, due_rows, expire_rows, expire_invitation_batch,
  max_invitation_expiry_batch_size,
}

-- A row that the batch may expire at `at`: stored, and due.
abbrev pub IsDue : ℕ → MatchingInvitation → Type 0
IsDue at i = IsStored i × (expired_pending_predicate at i ≡ true)

-- A row as the batch writes it.
abbrev pub expired_row : ℕ → MatchingInvitation → MatchingInvitation
expired_row at i =
    let j = stamp InvitationStatus.expired at i in record j { version = j.version + 1 }

abbrev pub put_all : ℕ → List MatchingInvitation → List MatchingInvitation → List MatchingInvitation
put_all at [] table = table
put_all at (i ∷ is) table = put_all at is (put (expired_row at i) table)

-- A stored row is created before its deadline, so that a due row can always be expired.
pub expire-IsDue :
    (at : ℕ) (i : MatchingInvitation)
    → IsDue at i
    → expire (aware at) i ≡ ok (stamp InvitationStatus.expired at i)
unfolding expire
expire-IsDue at i (s, d) = ground arith

expire_rows_writes :
    (at : ℕ) (rows : List MatchingInvitation) (db : Db)
    → All (IsDue at) rows
    → expire_rows at rows db ≡ ok (tt, record db { invitations = put_all at rows db.invitations })
unfolding expire_rows save_invitation
expire_rows_writes at [] db h = refl
expire_rows_writes at (i ∷ is) db (d, h) = rw (expire-IsDue at i d) (expire_rows_writes at is _ h)

module _ (locked : ℕ → Bool) (at : ℕ) where
  -- The rows that a batch may take: due, and not locked by another transaction.
  abbrev pub may_take : MatchingInvitation → Bool
  may_take i = expired_pending_predicate at i && not (locked i.id)

  select-IsDue :
      (table : List MatchingInvitation)
      → All IsStored table
      → All (IsDue at) (select may_take table)
  select-IsDue [] h = tt
  select-IsDue (i ∷ is) h = elim (Bool-cases (may_take i)) [
    | inl e ↦ rw e ((h.0, ground arith), select-IsDue is h.1)
    | inr e ↦ rw e (select-IsDue is h.1)
  ]

  due_rows-IsDue :
      (batch_size : ℕ) (db : Db)
      → All IsStored db.invitations
      → All (IsDue at) (due_rows locked batch_size at db)
  unfolding due_rows
  due_rows-IsDue batch_size db h =
      All-take_due (IsDue at) batch_size _
        (All-order_due (IsDue at) _ (select-IsDue db.invitations h))

  -- On stored rows the batch does not fail: within its bounds it writes the due rows and returns
  -- their keys, and outside them it refuses.
  pub batch_writes :
      (batch_size : ℕ) (db : Db)
      → All IsStored db.invitations
      → 1 ≤ batch_size
      → batch_size ≤ max_invitation_expiry_batch_size
      → let rows = due_rows locked batch_size at db in
        expire_invitation_batch locked batch_size (aware at) db
        ≡ ok (ids rows, record db { invitations = put_all at rows db.invitations })
  unfolding expire_invitation_batch
  batch_writes batch_size db h lo hi =
      let expired =
        expire_rows_writes at (due_rows locked batch_size at db) db
          (due_rows-IsDue batch_size db h) in
      rw (le→leb 1 batch_size lo, le→leb batch_size 100 hi, expired, ◌>>=◌)

  pub length-due_rows :
      (batch_size : ℕ) (db : Db)
      → length (due_rows locked batch_size at db)
        ≡ min batch_size (length (select may_take db.invitations))
  unfolding due_rows
  length-due_rows batch_size db =
      length-take batch_size _ ∙ ap (min batch_size) (length-order_due _)
