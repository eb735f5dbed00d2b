-- ===== src/Invitations/Expiry/Effective.antt =====
-- The effective state of an invitation: it agrees with the SQL predicates, settles, and does not
-- depend on whether the batch has run.
use buddy_web_ver.Base.{ℕ, ◌≤◌, ◌≡◌, ◌≢◌, true, not, ◌&&◌, arith}
use buddy_web_ver.Errors.{InvitationStatus, pending, ok}
use buddy_web_ver.Time.{aware}
use buddy_web_ver.Models.Invitation.{MatchingInvitation, status_is, expire}
use buddy_web_ver.Invitations.Expiry.{
  effective_invitation_status, effective_pending_predicate, expired_pending_predicate,
}

-- The projection and the two SQL predicates tell one story: an invitation is effectively pending
-- exactly if the first predicate selects it, and a row that is persisted as PENDING but effectively
-- not so is exactly one that the second selects for the batch, effectively EXPIRED.
pub effective_predicates :
    (t : ℕ) (i : MatchingInvitation) {s : InvitationStatus}
    → effective_invitation_status i (aware t) ≡ ok s
    → (effective_pending_predicate t i ≡ status_is s pending)
      × (expired_pending_predicate t i ≡ (status_is i.status pending && not (status_is s pending)))
      × (expired_pending_predicate t i ≡ true → s ≡ InvitationStatus.expired)
unfolding effective_invitation_status
effective_predicates t i h = (ground arith, ground arith, ground arith)

-- Once an invitation is effectively no longer pending, time alone does not change its state.
pub effective_settles :
    (t later : ℕ) (i : MatchingInvitation) {s : InvitationStatus}
    → t ≤ later
    → effective_invitation_status i (aware t) ≡ ok s
    → s ≢ pending
    → effective_invitation_status i (aware later) ≡ ok s
unfolding effective_invitation_status
effective_settles t later i le h ne = ground arith

-- Persisting the expiry of a row is invisible to readers: from then on the effective state is the
-- same with it and without it.
pub effective-expire :
    (t later : ℕ) (i : MatchingInvitation) {j : MatchingInvitation}
    → t ≤ later
    → expire (aware t) i ≡ ok j
    → effective_invitation_status j (aware later) ≡ effective_invitation_status i (aware later)
unfolding effective_invitation_status expire
effective-expire t later i le h = ground arith
