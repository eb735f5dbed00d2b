-- ===== src/Invitations/Expiry.antt =====
-- The effective state of an invitation and the expiry batch
-- (apps/api/app/services/invitation_expiry.py).
pub mod Effective
pub mod Order
pub mod Batch
pub mod Taken
pub mod Drain
use buddy_web_ver.Base.{
  ℕ, ◌≤◌, ◌≡◌, Bool, true, false, not, ◌&&◌, ◌||◌, List, [], ◌∷◌, map, leb, ltb, ◌==◌,
  if◌then◌else◌, take, select, length,
}
use buddy_web_ver.Errors.{
  InvitationStatus, pending, Exception, expiry_validation, Result, ok, err, ◌>>=◌,
}
use buddy_web_ver.Time.{Datetime, aware, utc_now}
use buddy_web_ver.Models.Invitation.{MatchingInvitation, status_is, expire}
use buddy_web_ver.Db.{Db, Session, save_invitation, guard, lift, query, pure}
use buddy_web_ver.Db

abbrev pub max_invitation_expiry_batch_size : ℕ
max_invitation_expiry_batch_size = 100

unfoldable pub effective_invitation_status : MatchingInvitation → Datetime → Result InvitationStatus
effective_invitation_status i at = do
  current_time ← utc_now at
  ok (
      if status_is i.status pending && leb i.expires_at current_time
      then InvitationStatus.expired
      else i.status)

-- The shared SQL predicates, at a UTC instant.
abbrev pub effective_pending_predicate : ℕ → MatchingInvitation → Bool
effective_pending_predicate at i = status_is i.status pending && ltb at i.expires_at

abbrev pub expired_pending_predicate : ℕ → MatchingInvitation → Bool
expired_pending_predicate at i = status_is i.status pending && leb i.expires_at at

-- `ORDER BY expires_at, id`
abbrev pub due_before : MatchingInvitation → MatchingInvitation → Bool
due_before i j = ltb i.expires_at j.expires_at || (i.expires_at == j.expires_at && leb i.id j.id)

abbrev pub insert_due : MatchingInvitation → List MatchingInvitation → List MatchingInvitation
insert_due i [] = i ∷ []
insert_due i (j ∷ js) = if due_before i j then i ∷ j ∷ js else j ∷ insert_due i js

abbrev pub order_due : List MatchingInvitation → List MatchingInvitation
order_due [] = []
order_due (i ∷ is) = insert_due i (order_due is)

-- The rows of a batch; `locked` marks those that another transaction holds, which are skipped.
pub due_rows : (ℕ → Bool) → ℕ → ℕ → Db → List MatchingInvitation
due_rows locked batch_size at db =
    take batch_size
      (order_due (select (λ i. expired_pending_predicate at i && not (locked i.id)) db.invitations))

pub expire_rows : ℕ → List MatchingInvitation → Session (Unit {0})
expire_rows at [] = pure tt
expire_rows at (i ∷ is) =
    Db.◌>>=◌ (lift (expire (aware at) i)) λ j. Db.◌>>◌ (save_invitation j) (expire_rows at is)

unfoldable pub expire_invitation_batch : (ℕ → Bool) → ℕ → Datetime → Session (List ℕ)
unfolding due_rows expire_rows
expire_invitation_batch locked batch_size clock =
    Db.◌>>◌
      (guard (not (leb 1 batch_size && leb batch_size max_invitation_expiry_batch_size))
        expiry_validation)
      (Db.◌>>=◌ (lift (utc_now clock)) λ at.
        Db.◌>>=◌ (query (due_rows locked batch_size at))
          λ rows. Db.◌>>◌ (expire_rows at rows) (pure (map (λ i. i.id) rows)))

-- The transaction around it, which commits the batch or rolls it back, with the counts of the
-- report: the rows selected and the rows expired.
unfoldable pub process_invitation_expiry_batch :
    (ℕ → Bool) → ℕ → Datetime → Db → Result (ℕ × ℕ) × Db
unfolding expire_invitation_batch
process_invitation_expiry_batch locked batch_size clock = Db.run (
    Db.◌>>=◌ (expire_invitation_batch locked batch_size clock)
      λ expired_ids. pure (length expired_ids, length expired_ids))
