-- ===== src/Invitations/Expiry/Taken.antt =====
-- Which rows the expiry batch takes, and in which order (the query of `expire_invitation_batch`).
use mathlib.Core.List.{Memᴰ}
use mathlib.Core.List.Memᴰ.{head, tail}
use buddy_web_ver.Base.{
  ℕ, ◌≤◌, ◌≡◌, refl, Bool, false, List, [], ◌∷◌, arith, select, All, Bool-cases, inl, inr,
}
use buddy_web_ver.Errors.{pending}
use buddy_web_ver.Models.Invitation.{MatchingInvitation}
use buddy_web_ver.Db.{Db}
use buddy_web_ver.Invitations.Expiry.{due_rows}
use buddy_web_ver.Invitations.Expiry.Batch.{may_take}
use buddy_web_ver.Invitations.Expiry.Order.{
  IsOrdered, IsInTurn, All-order_due, All-take_due, take_due-IsOrdered, take_due-IsInTurn,
}

module _ (locked : ℕ → Bool) (at : ℕ) where
  -- A row of the table that is pending, past its deadline and not locked.
  abbrev pub IsTakable : List MatchingInvitation → MatchingInvitation → Type 0
  IsTakable table i =
      Memᴰ i table × (i.status ≡ pending) × (i.expires_at ≤ at) × (locked i.id ≡ false)

  -- The rows of a batch: takable ones, in the order of the deadline and then of the key, and none that
  -- may be taken is passed over for one that is due later.
  pub record Taken (table rows : List MatchingInvitation) : Type 0 where
    pub takable : All (IsTakable table) rows
    pub ordered : IsOrdered rows
    pub in_turn : All (IsInTurn rows) (select (may_take locked at) table)

  select-IsTakable :
      (table is : List MatchingInvitation)
      → ((i : MatchingInvitation) → Memᴰ i is → Memᴰ i table)
      → All (IsTakable table) (select (may_take locked at) is)
  select-IsTakable table [] sub = tt
  select-IsTakable table (i ∷ is) sub =
      let rest = select-IsTakable table is (λ j m. sub j (tail m)) in
      elim (Bool-cases (may_take locked at i)) [
        | inl e ↦ rw e ((sub i (head refl), ground arith, ground arith, ground arith), rest)
        | inr e ↦ rw e rest
      ]

  pub due_rows-Taken :
      (batch_size : ℕ) (db : Db) → Taken db.invitations (due_rows locked batch_size at db)
  unfolding due_rows
  due_rows-Taken batch_size db =
      let due = select (may_take locked at) db.invitations in
      record {
        takable = All-take_due (IsTakable db.invitations) batch_size _ (
            All-order_due (IsTakable db.invitations) due
              (select-IsTakable db.invitations db.invitations (λ i m. m)));
        ordered = take_due-IsOrdered batch_size due;
        in_turn = take_due-IsInTurn batch_size due;
      }
