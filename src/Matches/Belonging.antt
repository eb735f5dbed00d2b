-- ===== src/Matches/Belonging.antt =====
-- The participants of a match are the accounts and the profiles of the invitation's two users,
-- whether they are locked now or were locked before.
use buddy_web_ver.Base.{
  ◌≡◌, not, ◌||◌, Option, none, some, ◌∷◌, [], ◌==◌, is_some, scalar, arith, ==→eq, Bool-cases, inl,
  inr,
}
use buddy_web_ver.Errors.{
  BuddyMatchActivationReason, activation_error, raise_if, Result, ok, err, or_raise, or_raise_inv,
  ok_inv,
}
use buddy_web_ver.Models.Match.{canonical_user_pair}
use buddy_web_ver.Models.Invitation.{MatchingInvitation}
use buddy_web_ver.Db.{Db, lift}
use buddy_web_ver.Db.Tables.{scalar_sound}
use buddy_web_ver.Matches.Participants.{
  LockedBuddyParticipants, lock_buddy_match_participants, lock_current_buddy_users, state_invalid,
  state_invalid_for, same_semester, opposite_types,
}
use buddy_web_ver.Matches.Activation.{belong_to, participants_of}

-- Each row is one of the sender or of the recipient.
pub record Belong (i : MatchingInvitation) (p : LockedBuddyParticipants) : Type 0 where
  pub sender_account : p.sender_user.id ≡ i.sender_id
  pub recipient_account : p.recipient_user.id ≡ i.recipient_id
  pub sender_student : p.sender_profile.user_id ≡ i.sender_id
  pub recipient_student : p.recipient_profile.user_id ≡ i.recipient_id

ok_same {ℓ} : {A : Type ℓ} (a b : A) → ok a ≡ ok b → b ≡ a
ok_same a b h = ground arith

module _ (i : MatchingInvitation) (db : Db) (p : LockedBuddyParticipants) where
  pub locked-Belong : lock_buddy_match_participants i db ≡ ok p → Belong i p
  unfolding lock_buddy_match_participants
  locked-Belong h =
      let (pair, _, h1) = ok_inv (canonical_user_pair i.sender_id i.recipient_id) _ p h in
      let (users, _, h2) =
        ok_inv (state_invalid_for (lock_current_buddy_users (pair.0 ∷ pair.1 ∷ []) db)) _ p h1 in
      let (a, is_a, h3) =
        ok_inv (or_raise (scalar (λ u. u.id == i.sender_id) users) state_invalid) _ p h2 in
      let (b, is_b, h4) =
        ok_inv (or_raise (scalar (λ u. u.id == i.recipient_id) users) state_invalid) _ p h3 in
      let (c, is_c, h5) =
        ok_inv (or_raise (scalar (λ p. p.user_id == i.sender_id) db.profiles) state_invalid) _ p
          h4 in
      let (d, is_d, h6) =
        ok_inv (or_raise (scalar (λ p. p.user_id == i.recipient_id) db.profiles) state_invalid) _ p
          h5 in
      let (_, _, h7) =
        ok_inv
          (raise_if
            (is_some c.deleted_at
              || is_some d.deleted_at
              || not (same_semester a.semester_id b.semester_id))
            state_invalid)
          _ p h6 in
      let (_, _, h8) =
        ok_inv
          (raise_if (not (opposite_types c.student_type d.student_type))
            (activation_error BuddyMatchActivationReason.opposite_types_required))
          _ p h7 in
      let same : p ≡ record {
        sender_user = a;
        recipient_user = b;
        sender_profile = c;
        recipient_profile = d;
      } =
        ok_same _ p h8 in
      let at_a =
        scalar_sound (λ u. u.id == i.sender_id) a users (or_raise_inv _ state_invalid a is_a) in
      let at_b =
        scalar_sound (λ u. u.id == i.recipient_id) b users (or_raise_inv _ state_invalid b is_b) in
      let at_c =
        scalar_sound (λ p. p.user_id == i.sender_id) c db.profiles
          (or_raise_inv _ state_invalid c is_c) in
      let at_d =
        scalar_sound (λ p. p.user_id == i.recipient_id) d db.profiles
          (or_raise_inv _ state_invalid d is_d) in
      rw same (record {
        sender_account = ==→eq a.id i.sender_id at_a;
        recipient_account = ==→eq b.id i.recipient_id at_b;
        sender_student = ==→eq c.user_id i.sender_id at_c;
        recipient_student = ==→eq d.user_id i.recipient_id at_d;
      })

lifted_left {ℓ} :
    {A : Type ℓ} (r : Result A) (db db' : Db) (a : A)
    → lift r db ≡ ok (a, db')
    → (r ≡ ok a) × (db' ≡ db)
lifted_left (ok b) db db' a h = (ground arith, ground arith)
lifted_left (err e) db db' a h = cc

-- Finding the participants writes nothing.
pub participants_left :
    (i : MatchingInvitation) (o : Option LockedBuddyParticipants) (db db' : Db)
    (p : LockedBuddyParticipants)
    → participants_of i o db ≡ ok (p, db')
    → Belong i p × (db' ≡ db)
unfolding participants_of
participants_left i none db db' p h =
    let (locks, same) = lifted_left (lock_buddy_match_participants i db) db db' p h in
    (locked-Belong i db p locks, same)
participants_left i (some p') db db' p h = elim (Bool-cases (belong_to i p')) [
  | inl e ↦
      let same = rw e at h in
      let is_p : p ≡ p' = ground arith in
      (
        rw is_p (record {
          sender_account = ground arith;
          recipient_account = ground arith;
          sender_student = ground arith;
          recipient_student = ground arith;
        }),
        ground arith,
      )
  | inr e ↦ let refused = rw e at h in cc
]
