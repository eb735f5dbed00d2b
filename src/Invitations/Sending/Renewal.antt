-- ===== src/Invitations/Sending/Renewal.antt =====
-- What stands of an earlier invitation of the pair: one that is effectively pending refuses the new
-- one, and one that is past its deadline is saved as expired (`_expire_or_reject_pending_pair`).
use buddy_web_ver.Base.{
  ℕ, ◌≡◌, ◌≢◌, refl, ap, sym, subst, Bool, true, false, ◌&&◌, ◌||◌, Option, none, some, List, [],
  ◌∷◌, ◌==◌, if◌then◌else◌, any, min, max, ltb, scalar, All, arith, Bool-cases, inl, inr,
}
use buddy_web_ver.Errors.{InvitationSendReason, pending, send_error, ok, err}
use buddy_web_ver.Models.Match.{canonical_user_pair_comm}
use buddy_web_ver.Models.Invitation.{MatchingInvitation, IsStored, status_is}
use buddy_web_ver.Db.{Db, save_invitation, ◌>>=◌}
use buddy_web_ver.Db.Tables.{put, clashes, IsUnique, scalar_sound}
use buddy_web_ver.Invitations.Expiry.Batch.{expired_row, expire-IsDue}
use buddy_web_ver.Invitations.Sending.Rejections.{
  is_pending_pair, expire_or_reject, expire_or_reject_pending_pair,
}

-- A pending invitation of two users, in either direction.
abbrev pub is_open : ℕ → ℕ → MatchingInvitation → Bool
is_open u v i =
    ((i.sender_id == u && i.recipient_id == v) || (i.sender_id == v && i.recipient_id == u))
    && status_is i.status pending

-- The same, before its deadline.
abbrev pub is_open_at : ℕ → ℕ → ℕ → MatchingInvitation → Bool
is_open_at now u v i = is_open u v i && ltb now i.expires_at

-- The rows where the pair's pending invitation is saved as expired.
abbrev pub renewed : ℕ → ℕ → ℕ → List MatchingInvitation → List MatchingInvitation
renewed now u v [] = []
renewed now u v (i ∷ is) = (if is_open u v i then expired_row now i else i) ∷ renewed now u v is

open_pair :
    (u v : ℕ) (i : MatchingInvitation) → is_pending_pair (min u v, max u v) i ≡ is_open u v i
open_pair u v i = ground arith

query_open :
    (u v : ℕ) (is : List MatchingInvitation)
    → scalar (is_pending_pair (min u v, max u v)) is ≡ scalar (is_open u v) is
query_open u v [] = refl
query_open u v (i ∷ is) = rw (open_pair u v i, query_open u v is) refl

some_same {ℓ} : {A : Type ℓ} (a b : A) → some a ≡ some b → b ≡ a
some_same a b h = ground arith

or_no : (b : Bool) → (b || false) ≡ b
or_no b = ground arith

apart : (j i : MatchingInvitation) → clashes j i ≡ false → (j.id == i.id) ≡ false
apart j i h = ground arith

module _ (now u v : ℕ) where
  none_open :
      (is : List MatchingInvitation)
      → scalar (is_open u v) is ≡ none
      → (any (is_open_at now u v) is ≡ false) × (renewed now u v is ≡ is)
  none_open [] h = (refl, refl)
  none_open (i ∷ is) h = elim (Bool-cases (is_open u v i)) [
    | inl e ↦ let wrong = rw e at h in cc
    | inr e ↦ let (closed, same) = none_open is (rw e at h) in rw (e, closed, same) (refl, refl)
  ]

  -- Two pending invitations of one pair clash.
  no_second :
      (i j : MatchingInvitation)
      → is_open u v i ≡ true
      → clashes i j ≡ false
      → (is_open u v j ≡ false) × ((j.id == i.id) ≡ false)
  no_second i j opened free = (ground arith, ground arith)

  only_open :
      (i : MatchingInvitation) (is : List MatchingInvitation)
      → is_open u v i ≡ true
      → any (clashes i) is ≡ false
      → (scalar (is_open u v) is ≡ none) × (put (expired_row now i) is ≡ is)
  only_open i [] opened free = (refl, refl)
  only_open i (j ∷ js) opened free =
      let (closed, other) = no_second i j opened (ground arith) in
      let (none_left, same) = only_open i js opened (ground arith) in
      rw (closed, other, none_left, same) (refl, refl)

  unmet :
      (q : MatchingInvitation → Bool) (i : MatchingInvitation) (is : List MatchingInvitation)
      → scalar (is_open u v) is ≡ some i
      → any q is ≡ false
      → q i ≡ false
  unmet q i [] found free = cc
  unmet q i (j ∷ js) found free = ground (arith, unmet q i js)

  -- In a table with unique keys and pending pairs there is one to expire.
  one_open :
      (i : MatchingInvitation) (is : List MatchingInvitation)
      → IsUnique is
      → scalar (is_open u v) is ≡ some i
      → (any (is_open_at now u v) is ≡ ltb now i.expires_at)
        × (put (expired_row now i) is ≡ renewed now u v is)
  one_open i [] unique found = cc
  one_open i (j ∷ js) unique found = elim (Bool-cases (is_open u v j)) [
    | inl e ↦
        let one : i ≡ j = some_same j i (rw e at found) in
        let (none_left, same) = only_open j js e unique.0 in
        let (closed, rest) = none_open js none_left in
        let itself : (j.id == j.id) ≡ true = ground arith in
        let at_first : (any (is_open_at now u v) (j ∷ js) ≡ ltb now j.expires_at)
            × (put (expired_row now j) (j ∷ js) ≡ renewed now u v (j ∷ js)) =
          (
            rw (e, closed) (or_no (ltb now j.expires_at)),
            rw (e, itself, rest) (ap (λ xs. expired_row now j ∷ xs) same),
          ) in
        subst
          (λ (k : MatchingInvitation).
            (any (is_open_at now u v) (j ∷ js) ≡ ltb now k.expires_at)
            × (put (expired_row now k) (j ∷ js) ≡ renewed now u v (j ∷ js)))
          (sym one) at_first
    | inr e ↦
        let later = rw e at found in
        let (same, put_same) = one_open i js unique.1 later in
        let other : (j.id == i.id) ≡ false = apart j i (unmet (clashes j) i js later unique.0) in
        rw (e, other, same, put_same) (refl, refl)
  ]

  All-found :
      (i : MatchingInvitation) (is : List MatchingInvitation)
      → All IsStored is
      → scalar (is_open u v) is ≡ some i
      → IsStored i
  All-found i [] stored found = cc
  All-found i (j ∷ js) stored found = elim (Bool-cases (is_open u v j)) [
    | inl e ↦ rw (some_same j i (rw e at found)) stored.0
    | inr e ↦ All-found i js stored.1 (rw e at found)
  ]

  module _ (db : Db) (unique : IsUnique db.invitations) (stored : All IsStored db.invitations) where
    -- The invitation that the query found.
    found_outcome :
        (o : Option MatchingInvitation)
        → scalar (is_open u v) db.invitations ≡ o
        → expire_or_reject now o db ≡ (
            if any (is_open_at now u v) db.invitations
            then err (send_error InvitationSendReason.pending_exists)
            else ok (tt, record db { invitations = renewed now u v db.invitations }))
    unfolding save_invitation
    found_outcome none found =
        let (closed, same) = none_open db.invitations found in rw (closed, same) refl
    found_outcome (some i) found =
        let (open_at, written) = one_open i db.invitations unique found in
        let opened = scalar_sound (is_open u v) i db.invitations found in
        elim (Bool-cases (ltb now i.expires_at)) [
          | inl e ↦ rw (open_at, e) refl
          | inr e ↦
              let expired =
                expire-IsDue now i (All-found i db.invitations stored found, ground arith) in
              rw (open_at, e, expired, ← written, ◌>>=◌) refl
        ]

    pub renewal_outcome :
        u ≢ v
        → expire_or_reject_pending_pair u v now db ≡ (
            if any (is_open_at now u v) db.invitations
            then err (send_error InvitationSendReason.pending_exists)
            else ok (tt, record db { invitations = renewed now u v db.invitations }))
    unfolding expire_or_reject_pending_pair
    renewal_outcome other =
        let (_, ordered, _) = canonical_user_pair_comm u v in
        rw (ordered other, query_open u v db.invitations, ◌>>=◌) (found_outcome _ refl)
