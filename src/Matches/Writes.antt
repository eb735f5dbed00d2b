-- ===== src/Matches/Writes.antt =====
-- What the last part of an activation checks and writes.
use buddy_web_ver.Base.{
  ℕ, ◌≡◌, refl, ◌∙◌, ap, Bool, true, false, not, Option, none, some, ◌∷◌, any, arith, Bool-cases,
  inl, inr,
}
use buddy_web_ver.Errors.{Exception, ok, or_raise, or_raise_inv}
use buddy_web_ver.Models.Match.{BuddyMatch}
use buddy_web_ver.Models.Invitation.{MatchingInvitation}
use buddy_web_ver.Db.{
  Db, Session, pure, lift, guard, map_error, insert_match, match_clashes, lift_then, bind-ok_inv,
  ◌>>=◌, ◌>>◌,
}
use buddy_web_ver.Matches.Participants.{LockedBuddyParticipants, same_semester, state_invalid}
use buddy_web_ver.Matches.Activation.{
  active_pair_exists, new_match, active_pair_if_unique, activate_between, active_pair,
}

pub guard_passed :
    (b : Bool) (e : Exception) (db db' : Db)
    → guard b e db ≡ ok (tt, db')
    → (b ≡ false) × (db' ≡ db)
guard_passed true e db db' h = cc
guard_passed false e db db' h = (refl, ground arith)

match_inserted :
    (m : BuddyMatch) (db db' : Db)
    → map_error active_pair_if_unique (insert_match m) db ≡ ok (tt, db')
    → (any (match_clashes m) db.matches ≡ false) × (db' ≡ record db { matches = m ∷ db.matches })
unfolding insert_match
match_inserted m db db' h = elim (Bool-cases (any (match_clashes m) db.matches)) [
  | inl e ↦ let refused = rw (e, map_error) at h in cc
  | inr e ↦ let written = rw (e, map_error) at h in (e, ground arith)
]

pair_checked :
    (a b : ℕ) (db db' : Db) (exists : Bool)
    → active_pair_exists a b db ≡ ok (exists, db')
    → db' ≡ db
unfolding active_pair_exists
pair_checked a b db db' exists h = ground arith

-- What an activation wrote.
pub record Activated (i : MatchingInvitation) (participants : LockedBuddyParticipants) (score : ℕ)
    (db db' : Db) (m : BuddyMatch) : Type 0 where
  pub from_sender : m.participant_one_user_id ≡ i.sender_id
  pub to_recipient : m.participant_two_user_id ≡ i.recipient_id
  pub of_invitation : m.accepted_invitation_id ≡ i.id
  pub between_profiles :
      (m.participant_one_profile_id ≡ participants.sender_profile.id)
      × (m.participant_two_profile_id ≡ participants.recipient_profile.id)
  pub one_semester :
      (participants.sender_user.semester_id ≡ some m.semester_id)
      × (participants.recipient_user.semester_id ≡ some m.semester_id)
  pub keeps_score : m.score ≡ score
  pub is_live : m.deleted_at ≡ none
  pub no_match_yet : any (match_clashes m) db.matches ≡ false
  pub wrote : db' ≡ record db { matches = m ∷ db.matches }

semester_shared :
    (semester : ℕ) (other : Option ℕ)
    → not (same_semester (some semester) other) ≡ false
    → other ≡ some semester
semester_shared semester none h = cc
semester_shared semester (some other) h = ground arith

assemble :
    (new_id : ℕ) (i : MatchingInvitation) (p : LockedBuddyParticipants) (score at semester : ℕ)
    (db db₃ db₄ db' : Db) (m : BuddyMatch)
    → or_raise p.sender_user.semester_id state_invalid ≡ ok semester
    → not (same_semester (some semester) p.recipient_user.semester_id) ≡ false
    → db₃ ≡ db
    → let made = new_match new_id i p semester score at in
      any (match_clashes made) db₃.matches ≡ false
      → db₄ ≡ record db₃ { matches = made ∷ db₃.matches }
      → pure made db₄ ≡ ok (m, db')
      → Activated i p score db db' m
assemble new_id i p score at semester db db₃ db₄ db' m is_semester one same fresh left h =
    let is_made : m ≡ new_match new_id i p semester score at = ground arith in
    let is_db : db' ≡ db₄ = ground arith in
    let add : Db → Db =
      λ d. record d { matches = new_match new_id i p semester score at ∷ d.matches } in
    rw is_made (record {
      from_sender = refl;
      to_recipient = refl;
      of_invitation = refl;
      between_profiles = (refl, refl);
      one_semester = (
        or_raise_inv p.sender_user.semester_id state_invalid semester is_semester,
        semester_shared semester p.recipient_user.semester_id one,
      );
      keeps_score = refl;
      is_live = refl;
      no_match_yet = rw same at fresh;
      wrote = is_db ∙ left ∙ ap add same;
    })

pub activate_between-Activated :
    (new_id : ℕ) (i : MatchingInvitation) (p : LockedBuddyParticipants) (score at : ℕ) (db db' : Db)
    (m : BuddyMatch)
    → activate_between new_id i p score at db ≡ ok (m, db')
    → Activated i p score db db' m
unfolding activate_between
activate_between-Activated new_id i p score at db db' m h =
    let made : ℕ → BuddyMatch = λ semester. new_match new_id i p semester score at in
    let last : ℕ → Session BuddyMatch = λ semester.
      map_error active_pair_if_unique (insert_match (made semester)) >> pure (made semester) in
    let shared : ℕ → Bool =
      λ semester. not (same_semester (some semester) p.recipient_user.semester_id) in
    let (exists, db₁, looked, h1) =
      bind-ok_inv (active_pair_exists i.sender_id i.recipient_id)
        (λ exists.
          guard exists active_pair
          >> (lift (or_raise p.sender_user.semester_id state_invalid) >>= λ semester.
              guard (shared semester) state_invalid >> last semester))
        db db' m h in
    let (_, db₂, passed, h2) =
      bind-ok_inv (guard exists active_pair)
        (λ _. lift (or_raise p.sender_user.semester_id state_invalid) >>= λ semester.
          guard (shared semester) state_invalid >> last semester)
        db₁ db' m h1 in
    let (semester, is_semester, h3) =
      lift_then (or_raise p.sender_user.semester_id state_invalid)
        (λ semester. guard (shared semester) state_invalid >> last semester) db₂ db' m h2 in
    let (_, db₃, same, h4) =
      bind-ok_inv (guard (shared semester) state_invalid) (λ _. last semester) db₂ db' m h3 in
    let (_, db₄, inserted, h5) =
      bind-ok_inv (map_error active_pair_if_unique (insert_match (made semester)))
        (λ _. pure (made semester)) db₃ db' m h4 in
    let at₁ = pair_checked i.sender_id i.recipient_id db db₁ exists looked in
    let (_, at₂) = guard_passed exists active_pair db₁ db₂ passed in
    let (one, at₃) = guard_passed (shared semester) state_invalid db₂ db₃ same in
    let (fresh, left) = match_inserted (made semester) db₃ db₄ inserted in
    assemble new_id i p score at semester db db₃ db₄ db' m is_semester one (at₃ ∙ at₂ ∙ at₁) fresh
      left h5
