-- ===== src/Models/Invitation/Lifecycle.antt =====
-- When the transitions of an invitation succeed: on a pending row, on one side of its deadline.
use buddy_web_ver.Base.{ℕ, ◌≤◌, ◌≡◌, ◌≢◌, some, arith, leb, ltb}
use buddy_web_ver.Errors.{InvitationStatus, pending, transition_error, ok, err, is_ok}
use buddy_web_ver.Time.{aware}
use buddy_web_ver.Models.Invitation.{
  MatchingInvitation, transition, accept, decline, cancel, expire, stamp,
}

-- The deadline splits the answers to a pending invitation: from its creation on, `accept`,
-- `decline` and `cancel` each succeed exactly before the deadline, and `expire` exactly from the
-- deadline on.
pub deadline_splits :
    (t c : ℕ) (i : MatchingInvitation)
    → i.status ≡ pending
    → i.created_at ≡ some c
    → c ≤ t
    → (is_ok (accept (aware t) i) ≡ ltb t i.expires_at)
      × (is_ok (decline (aware t) i) ≡ ltb t i.expires_at)
      × (is_ok (cancel (aware t) i) ≡ ltb t i.expires_at)
      × (is_ok (expire (aware t) i) ≡ leb i.expires_at t)
unfolding accept decline cancel expire
deadline_splits t c i p created h = (ground arith, ground arith, ground arith, ground arith)

-- A state other than PENDING is final: every transition, to whatever target, raises
-- `InvitationTransitionError` with the current state and the target.
pub terminal_final :
    (target : InvitationStatus) (t : ℕ) (i : MatchingInvitation)
    → i.status ≢ pending
    → transition target (aware t) i ≡ err (transition_error i.status target)
unfolding transition
terminal_final target t i h = ground arith

-- A transition that succeeds started at a pending row, and the row that it leaves has the target
-- as its state and differs from the old one only in that state and in the one timestamp that
-- `stamp` sets for it.
pub transition_writes :
    (target : InvitationStatus) (t : ℕ) (i j : MatchingInvitation)
    → transition target (aware t) i ≡ ok j
    → (i.status ≡ pending) × (j ≡ stamp target t i) × (j.status ≡ target)
unfolding transition
transition_writes target t i j h = ground arith
