-- ===== src/Invitations/Sending/Rejections.antt =====
-- What may stand against a new invitation: a pending one of the pair, an active match, or too many
-- pending ones (`_expire_or_reject_pending_pair`, `_reject_active_pair`,
-- `_require_pending_capacity`).
use buddy_web_ver.Base.{
  ℕ, Bool, ◌&&◌, Option, none, some, List, ltb, leb, ◌==◌, is_some, scalar, select, length,
}
use buddy_web_ver.Errors.{InvitationSendReason, pending, send_error}
use buddy_web_ver.Time.{aware}
use buddy_web_ver.Models.Invitation.{
  MatchingInvitation, pair_low_user_id, pair_high_user_id, status_is, expire,
}
use buddy_web_ver.Models.Match.{BuddyMatch, canonical_user_pair, low_user_id, high_user_id}
use buddy_web_ver.Db.{Session, pure, lift, guard, query, save_invitation, ◌>>=◌, ◌>>◌}
use buddy_web_ver.Invitations.Expiry.{effective_pending_predicate}

abbrev pub max_outgoing_pending_invitations : ℕ
max_outgoing_pending_invitations = 30

abbrev pub is_pending_pair : ℕ × ℕ → MatchingInvitation → Bool
is_pending_pair (low, high) i =
    pair_low_user_id i == low && pair_high_user_id i == high && status_is i.status pending

abbrev pub is_active_pair : ℕ × ℕ → BuddyMatch → Bool
is_active_pair (low, high) m = low_user_id m == low && high_user_id m == high

abbrev pub expire_or_reject : ℕ → Option MatchingInvitation → Session (Unit {0})
expire_or_reject at none = pure tt
expire_or_reject at (some i) = do
  guard (ltb at i.expires_at) (send_error InvitationSendReason.pending_exists)
  j ← lift (expire (aware at) i)
  save_invitation j

unfoldable pub expire_or_reject_pending_pair : ℕ → ℕ → ℕ → Session (Unit {0})
expire_or_reject_pending_pair sender_user_id recipient_user_id at = do
  pair ← lift (canonical_user_pair sender_user_id recipient_user_id)
  found ← query (λ db. scalar (is_pending_pair pair) db.invitations)
  expire_or_reject at found

unfoldable pub reject_active_pair : ℕ → ℕ → Session (Unit {0})
reject_active_pair sender_user_id recipient_user_id = do
  pair ← lift (canonical_user_pair sender_user_id recipient_user_id)
  found ← query (λ db. scalar (is_active_pair pair) db.matches)
  guard (is_some found) (send_error InvitationSendReason.active_pair_exists)

-- The invitations of a sender that are effectively pending.
abbrev pub pending_of : ℕ → ℕ → List MatchingInvitation → List MatchingInvitation
pending_of sender_user_id at invitations =
    select (λ i. i.sender_id == sender_user_id && effective_pending_predicate at i) invitations

unfoldable pub require_pending_capacity : ℕ → ℕ → Session (Unit {0})
require_pending_capacity sender_user_id at = do
  count ← query (λ db. length (pending_of sender_user_id at db.invitations))
  guard (leb max_outgoing_pending_invitations count)
      (send_error InvitationSendReason.pending_limit_reached)
