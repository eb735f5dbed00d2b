-- ===== src/Matches/Outcome.antt =====
-- What an activation answers and writes, by the matches of the pair and the semesters.
use buddy_web_ver.Base.{
  ℕ, ◌≡◌, ◌≢◌, refl, ◌∙◌, Bool, true, false, not, ◌&&◌, ◌||◌, Option, none, some, List, [], ◌∷◌,
  ◌==◌, if◌then◌else◌, any, min, max, scalar, is_some, arith, Bool-cases, inl, inr,
}
use buddy_web_ver.Errors.{accepted, Result, ok, err, or_raise}
use buddy_web_ver.Time.{aware}
use buddy_web_ver.Models.Match.{BuddyMatch, canonical_user_pair_comm}
use buddy_web_ver.Models.Invitation.{MatchingInvitation, status_is}
use buddy_web_ver.Db.{Db, insert_match, match_clashes, lift, pure, guard, ◌>>=◌, ◌>>◌, map_error}
use buddy_web_ver.Matches.Participants.{LockedBuddyParticipants, same_semester, state_invalid}
use buddy_web_ver.Matches.Activation.{
  live_invitation, participants_of, active_pair_exists, activate_between, activate_buddy_match,
  activate_locked, active_pair, active_pair_if_unique, has_changed, new_match, is_pair,
}

-- A match of two users, in either order.
abbrev pub is_between : ℕ → ℕ → BuddyMatch → Bool
is_between u v m =
    (m.participant_one_user_id == u && m.participant_two_user_id == v)
    || (m.participant_one_user_id == v && m.participant_two_user_id == u)

-- A match of the invitation's two users.
abbrev pub is_between_users : MatchingInvitation → BuddyMatch → Bool
is_between_users i = is_between i.sender_id i.recipient_id

-- A match that has the key of the new one or comes from the same invitation.
abbrev pub is_taken : ℕ → MatchingInvitation → BuddyMatch → Bool
is_taken new_id i m = m.id == new_id || m.accepted_invitation_id == i.id

-- The semester that the two accounts share.
abbrev pub shared_semester : Option ℕ → Option ℕ → Option ℕ
shared_semester none other = none
shared_semester (some semester) none = none
shared_semester (some semester) (some other) = if semester == other then some semester else none

-- The answer where the pair has no match.
abbrev pub Activation :
    ℕ
    → MatchingInvitation
    → LockedBuddyParticipants
    → ℕ
    → ℕ
    → Db
    → Option ℕ
    → Result (BuddyMatch × Db)
Activation new_id i p score at db none = err state_invalid
Activation new_id i p score at db (some semester) =
    if any (is_taken new_id i) db.matches
    then err active_pair
    else (let m = new_match new_id i p semester score at in
        ok (m, record db { matches = m ∷ db.matches }))

==_comm : (a b : ℕ) → (a == b) ≡ (b == a)
==_comm a b = ground arith

pub pair_found :
    (u v : ℕ) (ms : List BuddyMatch)
    → is_some (scalar (is_pair (min u v, max u v)) ms) ≡ any (is_between u v) ms
pair_found u v [] = refl
pair_found u v (m ∷ ms) = ground (arith, pair_found u v ms)

lookup :
    (i : MatchingInvitation) (db : Db)
    → i.sender_id ≢ i.recipient_id
    → active_pair_exists i.sender_id i.recipient_id db
      ≡ ok (any (is_between_users i) db.matches, db)
unfolding active_pair_exists
lookup i db other =
    let (_, ordered, _) = canonical_user_pair_comm i.sender_id i.recipient_id in
    rw (ordered other, ◌>>=◌) (rw (pair_found i.sender_id i.recipient_id db.matches) refl)

-- Two pairs with the same least and greatest member are one pair, in the same or the other order.
pair_eq :
    (a b c d : ℕ)
    → (min a b == min c d && max a b == max c d) ≡ (c == a && d == b || (c == b && d == a))
pair_eq a b c d = ground arith

or_false : (k t l : Bool) → l ≡ false → (k || t || l) ≡ (k || t)
or_false k t l h = ground arith

module _ (new_id score at semester : ℕ) (i : MatchingInvitation) (p : LockedBuddyParticipants) where
  abbrev made : BuddyMatch
  made = new_match new_id i p semester score at

  clash_one :
      (m : BuddyMatch)
      → is_between_users i m ≡ false
      → match_clashes made m ≡ (new_id == m.id || i.id == m.accepted_invitation_id)
  clash_one m free = or_false (new_id == m.id) (i.id == m.accepted_invitation_id) _ (
      pair_eq i.sender_id i.recipient_id m.participant_one_user_id m.participant_two_user_id ∙ free)

  clash_found :
      (ms : List BuddyMatch)
      → any (is_between_users i) ms ≡ false
      → any (match_clashes made) ms ≡ any (is_taken new_id i) ms
  clash_found [] free = refl
  clash_found (m ∷ ms) free = elim (Bool-cases (is_between_users i m)) [
    | inl e ↦ let wrong : true ≡ false = rw e at free in cc
    | inr e ↦
        let rest = clash_found ms (rw e at free) in
        rw (clash_one m e, rest, ==_comm new_id m.id, ==_comm i.id m.accepted_invitation_id) refl
  ]

module _ (new_id score at : ℕ) (i : MatchingInvitation) (p : LockedBuddyParticipants) (db : Db)
    (other : i.sender_id ≢ i.recipient_id) where
  inserted :
      (semester : ℕ)
      → any (is_between_users i) db.matches ≡ false
      → (map_error active_pair_if_unique (insert_match (new_match new_id i p semester score at))
            >> pure (new_match new_id i p semester score at))
          db
        ≡ Activation new_id i p score at db (some semester)
  unfolding insert_match
  inserted semester free =
      let clash = clash_found new_id score at semester i p db.matches free in
      elim (Bool-cases (any (is_taken new_id i) db.matches)) [
        | inl e ↦ rw (clash, e, map_error, ◌>>=◌) refl
        | inr e ↦ rw (clash, e, map_error, ◌>>=◌) refl
      ]

  semesters_checked :
      (sender recipient : Option ℕ)
      → any (is_between_users i) db.matches ≡ false
      → (lift (or_raise sender state_invalid) >>= λ semester.
            guard (not (same_semester (some semester) recipient)) state_invalid
            >> (map_error active_pair_if_unique
                  (insert_match (new_match new_id i p semester score at))
                >> pure (new_match new_id i p semester score at)))
          db
        ≡ Activation new_id i p score at db (shared_semester sender recipient)
  semesters_checked none recipient free = refl
  semesters_checked (some semester) none free = refl
  semesters_checked (some semester) (some r) free = elim (Bool-cases (semester == r)) [
    | inl e ↦ rw e (inserted semester free)
    | inr e ↦ rw e refl
  ]

  between_outcome : activate_between new_id i p score at db ≡ (
      if any (is_between_users i) db.matches
      then err active_pair
      else Activation new_id i p score at db
          (shared_semester p.sender_user.semester_id p.recipient_user.semester_id))
  unfolding activate_between
  between_outcome = elim (Bool-cases (any (is_between_users i) db.matches)) [
    | inl e ↦ rw (lookup i db other, e, ◌>>=◌) refl
    | inr e ↦
        rw (lookup i db other, e, ◌>>=◌)
          (semesters_checked p.sender_user.semester_id p.recipient_user.semester_id e)
  ]

  locked_outcome :
      (accepted_invitation_id : ℕ)
      → live_invitation accepted_invitation_id db ≡ some i
      → has_changed i i ≡ false
      → activate_locked new_id accepted_invitation_id score at i p db
        ≡ activate_between new_id i p score at db
  unfolding activate_locked
  locked_outcome k live same = rw (live, same, ◌>>=◌) refl

  -- The answer of an activation for a live, accepted invitation between two users, with participants
  -- that belong to it. If a match has the two users, in either order, it raises ACTIVE_PAIR_EXISTS.
  -- Otherwise, if the two accounts share no semester, PARTICIPANT_STATE_INVALID. Otherwise, if a
  -- match has the new key or comes from the same invitation, ACTIVE_PAIR_EXISTS; and else the answer
  -- is the new match, of the shared semester, which is added to the matches and is all that is
  -- written.
  pub activation_outcome :
      (accepted_invitation_id : ℕ) (locked : Option LockedBuddyParticipants)
      → live_invitation accepted_invitation_id db ≡ some i
      → status_is i.status accepted ≡ true
      → participants_of i locked db ≡ ok (p, db)
      → activate_buddy_match new_id accepted_invitation_id score locked (aware at) db ≡ (
          if any (is_between_users i) db.matches
          then err active_pair
          else Activation new_id i p score at db
              (shared_semester p.sender_user.semester_id p.recipient_user.semester_id))
  unfolding activate_buddy_match
  activation_outcome k locked live is_accepted locks =
      let same : has_changed i i ≡ false = ground arith in
      rw (live, is_accepted, locks, ◌>>=◌) (locked_outcome k live same ∙ between_outcome)
