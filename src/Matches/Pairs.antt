-- ===== src/Matches/Pairs.antt =====
-- An activation that succeeds: whose match it makes.
use buddy_web_ver.Base.{ℕ, ◌≡◌, ◌∙◌, sym, ap, subst, true, not, Option, some, arith}
use buddy_web_ver.Errors.{accepted, ok, or_raise_inv}
use buddy_web_ver.Time.{Datetime, utc_now}
use buddy_web_ver.Models.Match.{BuddyMatch}
use buddy_web_ver.Models.Invitation.{MatchingInvitation, status_is}
use buddy_web_ver.Db.{Db, Session, guard, read, lift_then, read_then, bind-ok_inv, ◌>>=◌, ◌>>◌}
use buddy_web_ver.Matches.Participants.{LockedBuddyParticipants}
use buddy_web_ver.Matches.Belonging.{Belong, participants_left}
use buddy_web_ver.Matches.Writes.{Activated, guard_passed, activate_between-Activated}
use buddy_web_ver.Matches.Activation.{
  live_invitation, participants_of, activate_between, activate_buddy_match, activate_locked,
  read_invitation, has_changed, invitation_not_accepted,
}

read_at :
    (i : MatchingInvitation) (o : Option LockedBuddyParticipants) (p : LockedBuddyParticipants)
    (db db₁ db₂ : Db)
    → db₁ ≡ db
    → db₂ ≡ db₁
    → participants_of i o db₁ ≡ ok (p, db₂)
    → participants_of i o db ≡ ok (p, db)
read_at i o p db db₁ db₂ same left h = cc

some_same {ℓ} : {A : Type ℓ} (a b : A) → some a ≡ some b → a ≡ b
some_same a b h = ground arith

module _ (new_id accepted_invitation_id score : ℕ) where
  locked_result :
      (at : ℕ) (i : MatchingInvitation) (p : LockedBuddyParticipants) (db db' : Db) (m : BuddyMatch)
      → activate_locked new_id accepted_invitation_id score at i p db ≡ ok (m, db')
      → (j : MatchingInvitation) × (live_invitation accepted_invitation_id db ≡ some j)
        × (status_is j.status accepted ≡ true)
        × Activated j p score db db' m
  unfolding activate_locked
  locked_result at i p db db' m h =
      let (j, is_j, h1) =
        read_then (read_invitation accepted_invitation_id)
          (λ j.
            guard (has_changed i j) invitation_not_accepted >> activate_between new_id j p score at)
          db db' m h in
      let (_, db₁, passed, h2) =
        bind-ok_inv (guard (has_changed i j) invitation_not_accepted)
          (λ _. activate_between new_id j p score at) db db' m h1 in
      let (unchanged, same) =
        guard_passed (has_changed i j) invitation_not_accepted db db₁ passed in
      (
        j,
        or_raise_inv (live_invitation accepted_invitation_id db) invitation_not_accepted j is_j,
        ground arith,
        activate_between-Activated new_id j p score at db db' m (rw same at h2),
      )

  finished :
      (at : ℕ) (locked : Option LockedBuddyParticipants) (i : MatchingInvitation)
      (p : LockedBuddyParticipants) (db db₁ db₂ db' : Db) (m : BuddyMatch)
      → read_invitation accepted_invitation_id db ≡ ok i
      → db₁ ≡ db
      → participants_of i locked db₁ ≡ ok (p, db₂)
      → activate_locked new_id accepted_invitation_id score at i p db₂ ≡ ok (m, db')
      → (i : MatchingInvitation) × (p : LockedBuddyParticipants) × (live_invitation
            accepted_invitation_id db
          ≡ some i)
        × (status_is i.status accepted ≡ true)
        × (participants_of i locked db ≡ ok (p, db))
        × Belong i p
        × Activated i p score db db' m
  finished at locked i p db db₁ db₂ db' m is_i same locks rest =
      let (belong, left) = participants_left i locked db₁ db₂ p locks in
      let unchanged = left ∙ same in
      let (j, live, is_accepted, made) = locked_result at i p db db' m (rw unchanged at rest) in
      let one : j ≡ i = some_same j i (sym live ∙ or_raise_inv _ invitation_not_accepted i is_i) in
      (
        i,
        p,
        live ∙ ap some one,
        subst (λ (k : MatchingInvitation). status_is k.status accepted ≡ true) one is_accepted,
        read_at i locked p db db₁ db₂ same left locks,
        belong,
        subst (λ (k : MatchingInvitation). Activated k p score db db' m) one made,
      )

  -- A match that is activated belongs to the live, accepted invitation that was asked for. Its
  -- participants are those that were given, or else those that are locked now: the sender's account
  -- and profile and the recipient's, of one semester, which is the match's. The match is between
  -- those two accounts and profiles and keeps the score; no match in the table had its key, its
  -- invitation or its pair; and the match is all that is written.
  pub activation_result :
      (locked : Option LockedBuddyParticipants) (clock : Datetime) (db db' : Db) (m : BuddyMatch)
      → activate_buddy_match new_id accepted_invitation_id score locked clock db ≡ ok (m, db')
      → (i : MatchingInvitation) × (p : LockedBuddyParticipants) × (live_invitation
            accepted_invitation_id db
          ≡ some i)
        × (status_is i.status accepted ≡ true)
        × (participants_of i locked db ≡ ok (p, db))
        × Belong i p
        × Activated i p score db db' m
  unfolding activate_buddy_match
  activation_result locked clock db db' m h =
      let rest : ℕ → MatchingInvitation → LockedBuddyParticipants → Session BuddyMatch =
        λ at i p. activate_locked new_id accepted_invitation_id score at i p in
      let (at, _, h1) =
        lift_then (utc_now clock)
          (λ at. read (read_invitation accepted_invitation_id) >>= λ i.
            guard (not (status_is i.status accepted)) invitation_not_accepted
            >> (participants_of i locked >>= λ p. rest at i p))
          db db' m h in
      let (i, is_i, h2) =
        read_then (read_invitation accepted_invitation_id)
          (λ i.
            guard (not (status_is i.status accepted)) invitation_not_accepted
            >> (participants_of i locked >>= λ p. rest at i p))
          db db' m h1 in
      let (_, db₁, passed, h3) =
        bind-ok_inv (guard (not (status_is i.status accepted)) invitation_not_accepted)
          (λ _. participants_of i locked >>= λ p. rest at i p) db db' m h2 in
      let (_, same) =
        guard_passed (not (status_is i.status accepted)) invitation_not_accepted db db₁ passed in
      let (p, db₂, locks, h4) =
        bind-ok_inv (participants_of i locked) (λ p. rest at i p) db₁ db' m h3 in
      finished at locked i p db db₁ db₂ db' m is_i same locks h4
