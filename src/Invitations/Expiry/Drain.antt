-- ===== src/Invitations/Expiry/Drain.antt =====
-- What the expiry batch leaves behind: no due row when its size allows, and every row that it does
-- not report as it was.
use buddy_web_ver.Base.{
  ℕ, suc, ◌≤◌, ◌<◌, ◌≡◌, refl, ◌∙◌, ap, Bool, true, false, List, [], ◌∷◌, arith, ◌==◌,
  if◌then◌else◌, take_all, select, length, min, elem, All, Bool-cases, inl, inr, ◌⊎◌,
}
use buddy_web_ver.Errors.{ok, err, expiry_validation}
use buddy_web_ver.Time.{Datetime, aware}
use buddy_web_ver.Models.Invitation.{MatchingInvitation, IsStored}
use buddy_web_ver.Db.{Db}
use buddy_web_ver.Invitations.Expiry.Order.{length-order_due, elem-order_due, ids}
use buddy_web_ver.Invitations.Expiry.Taken.{Taken, due_rows-Taken}
use buddy_web_ver.Db.Tables.{put, find, find-put_ne}
use buddy_web_ver.Invitations.Expiry.{
  order_due, due_rows, expire_invitation_batch, max_invitation_expiry_batch_size,
}
use buddy_web_ver.Invitations.Expiry.Batch.{
  may_take, expired_row, put_all, batch_writes, length-due_rows,
}

find-put_all :
    (at k : ℕ) (rows table : List MatchingInvitation)
    → elem k (ids rows) ≡ false
    → find k (put_all at rows table) ≡ find k table
find-put_all at k [] table h = refl
find-put_all at k (i ∷ is) table h =
    find-put_all at k is (put (expired_row at i) table) (ground arith)
    ∙ find-put_ne (expired_row at i) k table (ground arith)

length-ids : (rows : List MatchingInvitation) → length (ids rows) ≡ length rows
length-ids [] = refl
length-ids (i ∷ is) = ap suc (length-ids is)

module _ (locked : ℕ → Bool) (at : ℕ) where
  -- Every row that may be taken has its key among `keys`.
  abbrev Covers : List ℕ → List MatchingInvitation → Type 0
  Covers keys [] = Unit
  Covers keys (i ∷ is) = (may_take locked at i ≡ true → elem i.id keys ≡ true) × Covers keys is

  Covers-mono :
      (keys : List ℕ) (k : ℕ) (table : List MatchingInvitation)
      → Covers keys table
      → Covers (k ∷ keys) table
  Covers-mono keys k [] c = tt
  Covers-mono keys k (i ∷ is) c = (λ h. ground (arith, c.0 h), Covers-mono keys k is c.1)

  Covers-cons :
      (b : Bool) (i : MatchingInvitation) (is rows : List MatchingInvitation)
      → may_take locked at i ≡ b
      → Covers (ids rows) is
      → Covers (ids (if b then i ∷ rows else rows)) (i ∷ is)
  Covers-cons true i is rows e c = (λ h. ground arith, Covers-mono _ i.id is c)
  Covers-cons false i is rows e c = (λ h. cc, c)

  Covers-select :
      (table : List MatchingInvitation) → Covers (ids (select (may_take locked at) table)) table
  Covers-select [] = tt
  Covers-select (i ∷ is) = Covers-cons (may_take locked at i) i is _ refl (Covers-select is)

  -- An expired row may not be taken again, so a write removes its key from those to cover.
  Covers-put :
      (i : MatchingInvitation) (keys : List ℕ) (table : List MatchingInvitation)
      → Covers (i.id ∷ keys) table
      → Covers keys (put (expired_row at i) table)
  Covers-put i keys [] c = tt
  Covers-put i keys (j ∷ js) c = elim (Bool-cases (j.id == i.id)) [
    | inl e ↦ rw e (λ h. ground arith, Covers-put i keys js c.1)
    | inr e ↦ rw e (λ h. ground (arith, c.0 h), Covers-put i keys js c.1)
  ]

  none_left :
      (table : List MatchingInvitation) → Covers [] table → select (may_take locked at) table ≡ []
  none_left [] c = refl
  none_left (i ∷ is) c = elim (Bool-cases (may_take locked at i)) [
    | inl e ↦ let wrong : false ≡ true = c.0 e in cc
    | inr e ↦ rw e (none_left is c.1)
  ]

  select-put_all :
      (rows table : List MatchingInvitation)
      → Covers (ids rows) table
      → select (may_take locked at) (put_all at rows table) ≡ []
  select-put_all [] table c = none_left table c
  select-put_all (i ∷ is) table c = select-put_all is _ (Covers-put i (ids is) table c)

  Covers-elem :
      (xs ys : List ℕ) (table : List MatchingInvitation)
      → ((k : ℕ) → elem k ys ≡ elem k xs)
      → Covers xs table
      → Covers ys table
  Covers-elem xs ys [] same c = tt
  Covers-elem xs ys (i ∷ is) same c = (λ h. same i.id ∙ c.0 h, Covers-elem xs ys is same c.1)

  due_rows_all :
      (batch_size : ℕ) (db : Db)
      → length (select (may_take locked at) db.invitations) ≤ batch_size
      → due_rows locked batch_size at db ≡ order_due (select (may_take locked at) db.invitations)
  unfolding due_rows
  due_rows_all batch_size db h =
      take_all batch_size _
        (omega (arith, length-order_due (select (may_take locked at) db.invitations)))

  drained :
      (batch_size : ℕ) (db : Db)
      → length (select (may_take locked at) db.invitations) ≤ batch_size
      → select (may_take locked at) (put_all at (due_rows locked batch_size at db) db.invitations)
        ≡ []
  drained batch_size db h = select-put_all (due_rows locked batch_size at db) db.invitations (
      rw (due_rows_all batch_size db h) (
        Covers-elem (ids (select (may_take locked at) db.invitations)) _ db.invitations
          (λ k. elem-order_due k _) (Covers-select db.invitations)))

  -- On stored rows, within its bounds, the batch succeeds. It reports as many rows as are due and
  -- not locked, up to its size. The reported keys are those of rows of the table that are pending,
  -- past their deadline and not locked; the rows are in the order of the deadline, and of the key
  -- where it is equal, and no row that is due and not locked is passed over for one that comes later
  -- in that order. Every row that it does not report is as before; and if its size allows, no row that
  -- it may take is left.
  pub batch_drains :
      (batch_size : ℕ) (db : Db)
      → All IsStored db.invitations
      → 1 ≤ batch_size
      → batch_size ≤ max_invitation_expiry_batch_size
      → (expired_ids : List ℕ) × (db' : Db) × (expire_invitation_batch locked batch_size
            (aware at)
            db
          ≡ ok (expired_ids, db'))
        × ((rows : List MatchingInvitation) × (expired_ids ≡ ids rows)
            × Taken locked at db.invitations rows)
        × (length expired_ids
            ≡ min batch_size (length (select (may_take locked at) db.invitations)))
        × ((k : ℕ) → elem k expired_ids ≡ false → find k db'.invitations ≡ find k db.invitations)
        × (length (select (may_take locked at) db.invitations) ≤ batch_size
            → select (may_take locked at) db'.invitations ≡ [])
  batch_drains batch_size db stored lo hi =
      let rows = due_rows locked batch_size at db in
      (
        ids rows,
        record db { invitations = put_all at rows db.invitations },
        batch_writes locked at batch_size db stored lo hi,
        (rows, refl, due_rows-Taken locked at batch_size db),
        length-ids rows ∙ length-due_rows locked at batch_size db,
        λ k h. find-put_all at k rows db.invitations h,
        λ h. drained batch_size db h,
      )

-- Outside its bounds the batch refuses, whatever the clock says.
pub batch_refuses :
    (locked : ℕ → Bool) (batch_size : ℕ) (clock : Datetime) (db : Db)
    → (batch_size ≡ 0) ⊎ (max_invitation_expiry_batch_size < batch_size)
    → expire_invitation_batch locked batch_size clock db ≡ err expiry_validation
unfolding expire_invitation_batch
batch_refuses locked batch_size clock db h = ground arith
