-- ===== src/Models/Invitation/Constraints.antt =====
-- Every method keeps the database's check constraints.
use buddy_web_ver.Base.{◌≡◌, Bool, arith}
use buddy_web_ver.Errors.{ok}
use buddy_web_ver.Time.{Datetime}
use buddy_web_ver.Models.Invitation.{
  MatchingInvitation, IsStored, accept, decline, cancel, expire, hide_from_sender,
}

pub accept-IsStored :
    (at : Datetime) (i j : MatchingInvitation) → IsStored i → accept at i ≡ ok j → IsStored j
unfolding accept
accept-IsStored at i j s h = ground arith

pub decline-IsStored :
    (at : Datetime) (i j : MatchingInvitation) → IsStored i → decline at i ≡ ok j → IsStored j
unfolding decline
decline-IsStored at i j s h = ground arith

pub cancel-IsStored :
    (at : Datetime) (i j : MatchingInvitation) → IsStored i → cancel at i ≡ ok j → IsStored j
unfolding cancel
cancel-IsStored at i j s h = ground arith

pub expire-IsStored :
    (at : Datetime) (i j : MatchingInvitation) → IsStored i → expire at i ≡ ok j → IsStored j
unfolding expire
expire-IsStored at i j s h = ground arith

pub hide-IsStored :
    (at : Datetime) (i j : MatchingInvitation) (b : Bool)
    → IsStored i
    → hide_from_sender at i ≡ ok (j, b)
    → IsStored j
unfolding hide_from_sender
hide-IsStored at i j b s h = ground arith
