-- ===== src/Invitations/Acceptance/Outcome.antt =====
-- An acceptance that succeeds, taken apart: it is a replay, or it writes.
use buddy_web_ver.Base.{ℕ, ◌≡◌, sym, subst, ◌⊎◌, inl, inr, true, not, ◌==◌, arith}
use buddy_web_ver.Errors.{pending, accepted, InvitationAcceptReason, accept_error, Result, ok}
use buddy_web_ver.Time.{Datetime, utc_now}
use buddy_web_ver.Models.Invitation.{MatchingInvitation, status_is}
use buddy_web_ver.Preferences.{Unicode}
use buddy_web_ver.Db.{
  Db, Session, lift, guard, read, map_error, lift_then, read_then, map_read_then, guard_then,
  bind-ok_inv, ◌>>=◌, ◌>>◌,
}
use buddy_web_ver.Profiles.Access.{VerifiedBuddyPrincipal, get_eligible_matching_principal}
use buddy_web_ver.Matches.Participants.{LockedBuddyParticipants, lock_buddy_match_participants}
use buddy_web_ver.Matches.Belonging.{Belong, locked-Belong}
use buddy_web_ver.Matching.Availability.{ToUtc}
use buddy_web_ver.Matching.Eligibility.{EligibleMatchingPrincipal, matching_pair_is_eligible}
use buddy_web_ver.Matching.Scoring.{CompatibilityScore}
use buddy_web_ver.Invitations.Acceptance.{
  InvitationAcceptanceResult, NewKeys, not_found, state_conflict, map_activation_error,
  ineligible_as, load_owned_invitation, load_completed_result, by_status, require_effective,
  require_current_eligibility, scored_pair, store_acceptance, accept_pending, accept_observed,
  accept_matching_invitation,
}
use buddy_web_ver.Invitations.Acceptance.Stored.{Stored, store-Stored}
use buddy_web_ver.Invitations.Acceptance.Replays.{
  Replayed, completed-Replayed, status_cases, status_differs, effective_left, owned_key,
}

module _ (to_utc : ToUtc) (unicode : Unicode) (keys : NewKeys) where
  -- An acceptance with its writes, by the second reading of the clock.
  pub record Accepted (user_id : ℕ) (i : MatchingInvitation) (clock : Datetime) (db db' : Db)
      (r : InvitationAcceptanceResult) : Type 0 where
    pub participants : LockedBuddyParticipants
    pub sender : EligibleMatchingPrincipal
    pub recipient : EligibleMatchingPrincipal
    pub compatibility : CompatibilityScore
    pub at : ℕ
    pub locked : lock_buddy_match_participants i db ≡ ok participants
    pub belong : Belong i participants
    pub is_at : utc_now clock ≡ ok at
    pub sender_eligible :
        get_eligible_matching_principal unicode
          (record { owner = participants.sender_user; profile = participants.sender_profile })
          db
        ≡ ok sender
    pub recipient_eligible :
        get_eligible_matching_principal unicode
          (record { owner = participants.recipient_user; profile = participants.recipient_profile })
          db
        ≡ ok recipient
    pub to_caller : recipient.user_id ≡ user_id
    pub is_pair : matching_pair_is_eligible sender recipient ≡ true
    pub scored : scored_pair to_utc unicode sender recipient at db ≡ ok compatibility
    pub stored : Stored keys i participants compatibility.score at db db' r

  pending-Accepted :
      (user_id : ℕ) (p : LockedBuddyParticipants) (a b : EligibleMatchingPrincipal)
      (i : MatchingInvitation) (clock : Datetime) (db db' : Db) (r : InvitationAcceptanceResult)
      → lock_buddy_match_participants i db ≡ ok p
      → get_eligible_matching_principal unicode
          (record { owner = p.sender_user; profile = p.sender_profile })
          db
        ≡ ok a
      → get_eligible_matching_principal unicode
          (record { owner = p.recipient_user; profile = p.recipient_profile })
          db
        ≡ ok b
      → b.user_id ≡ user_id
      → matching_pair_is_eligible a b ≡ true
      → accept_pending to_utc unicode keys p a b i clock db ≡ ok (r, db')
      → Accepted user_id i clock db db' r
  unfolding accept_pending
  pending-Accepted user_id p a b i clock db db' r locks from_ to_ caller pair h =
      let score : ℕ → Db → Result CompatibilityScore = λ at. scored_pair to_utc unicode a b at in
      let store : ℕ → CompatibilityScore → Session InvitationAcceptanceResult =
        λ at s. store_acceptance keys i p s.score at in
      let (at, is_at, h1) =
        lift_then (utc_now clock)
          (λ at. require_effective i at >> (read (score at) >>= λ s. store at s)) db db' r h in
      let (_, db₁, effective, h2) =
        bind-ok_inv (require_effective i at) (λ _. read (score at) >>= λ s. store at s) db db' r
          h1 in
      let same = effective_left i at db db₁ effective in
      let (s, is_s, h3) =
        read_then (score at) (λ s. store at s) db db' r
          (subst (λ (d : Db). (read (score at) >>= λ s. store at s) d ≡ ok (r, db')) same h2) in
      record {
        participants = p;
        sender = a;
        recipient = b;
        compatibility = s;
        at = at;
        locked = locks;
        belong = locked-Belong i db p locks;
        is_at = is_at;
        sender_eligible = from_;
        recipient_eligible = to_;
        to_caller = caller;
        is_pair = pair;
        scored = is_s;
        stored = store-Stored keys i p s.score at db db' r h3;
      }

  module _ (user_id : ℕ) (i : MatchingInvitation) (clock : Datetime) where
    -- The part after the locks and the two eligible principals.
    abbrev answer :
        LockedBuddyParticipants
        → EligibleMatchingPrincipal
        → EligibleMatchingPrincipal
        → MatchingInvitation
        → Session InvitationAcceptanceResult
    answer p a b j =
        by_status j.status (load_completed_result j)
          (accept_pending to_utc unicode keys p a b j clock)

    abbrev locked_part :
        LockedBuddyParticipants
        → EligibleMatchingPrincipal
        → EligibleMatchingPrincipal
        → Session InvitationAcceptanceResult
    locked_part p a b = read (load_owned_invitation i.id user_id) >>= λ j.
        guard (not (j.sender_id == i.sender_id)) state_conflict >> answer p a b j

    abbrev paired_part :
        LockedBuddyParticipants
        → EligibleMatchingPrincipal
        → EligibleMatchingPrincipal
        → Session InvitationAcceptanceResult
    paired_part p a b =
        guard (not (matching_pair_is_eligible a b))
          (accept_error InvitationAcceptReason.opposite_types_required)
        >> locked_part p a b

    abbrev principals_part :
        LockedBuddyParticipants
        → EligibleMatchingPrincipal
        → EligibleMatchingPrincipal
        → Session InvitationAcceptanceResult
    principals_part p a b = guard (not (b.user_id == user_id)) not_found >> paired_part p a b

    principals-Accepted :
        (p : LockedBuddyParticipants) (a b : EligibleMatchingPrincipal) (db db' : Db)
        (r : InvitationAcceptanceResult)
        → lock_buddy_match_participants i db ≡ ok p
        → get_eligible_matching_principal unicode
            (record { owner = p.sender_user; profile = p.sender_profile })
            db
          ≡ ok a
        → get_eligible_matching_principal unicode
            (record { owner = p.recipient_user; profile = p.recipient_profile })
            db
          ≡ ok b
        → load_owned_invitation i.id user_id db ≡ ok i
        → status_is i.status pending ≡ true
        → principals_part p a b db ≡ ok (r, db')
        → Accepted user_id i clock db db' r
    principals-Accepted p a b db db' r locks from_ to_ owned is_pending h =
        let opposite = accept_error InvitationAcceptReason.opposite_types_required in
        let (caller, h1) =
          guard_then (not (b.user_id == user_id)) not_found (paired_part p a b) db db' r h in
        let (paired, h2) =
          guard_then (not (matching_pair_is_eligible a b)) opposite (locked_part p a b) db db' r
            h1 in
        let (j, is_j, h3) =
          read_then (load_owned_invitation i.id user_id)
            (λ j. guard (not (j.sender_id == i.sender_id)) state_conflict >> answer p a b j) db db'
            r h2 in
        let (_, h4) =
          guard_then (not (j.sender_id == i.sender_id)) state_conflict (answer p a b j) db db' r
            h3 in
        let same : j ≡ i = cc in
        elim (status_cases i.status (load_completed_result i)
          (accept_pending to_utc unicode keys p a b i clock) db db' r
          (subst (λ (j : MatchingInvitation). answer p a b j db ≡ ok (r, db')) same h4)) [
            | inl (wrong, _) ↦ absurd (status_differs i.status wrong is_pending)
            | inr (_, rest) ↦
                pending-Accepted user_id p a b i clock db db' r locks from_ to_ (ground arith)
                  (ground arith) rest
          ]

    observed-Accepted :
        (db db' : Db) (r : InvitationAcceptanceResult)
        → load_owned_invitation i.id user_id db ≡ ok i
        → status_is i.status pending ≡ true
        → accept_observed to_utc unicode keys user_id i clock db ≡ ok (r, db')
        → Accepted user_id i clock db db' r
    unfolding accept_observed require_current_eligibility
    observed-Accepted db db' r owned is_pending h =
        let principal : VerifiedBuddyPrincipal → Db → Result EligibleMatchingPrincipal =
          get_eligible_matching_principal unicode in
        let sender_of : LockedBuddyParticipants → VerifiedBuddyPrincipal =
          λ p. record { owner = p.sender_user; profile = p.sender_profile } in
        let recipient_of : LockedBuddyParticipants → VerifiedBuddyPrincipal =
          λ p. record { owner = p.recipient_user; profile = p.recipient_profile } in
        let unfit = ineligible_as InvitationAcceptReason.participant_ineligible in
        let unfit' = ineligible_as InvitationAcceptReason.recipient_ineligible in
        let (p, locks, h1) =
          map_read_then map_activation_error (lock_buddy_match_participants i)
            (λ p. map_error unfit (read (principal (sender_of p))) >>= λ a.
              map_error unfit' (read (principal (recipient_of p))) >>= λ b. principals_part p a b)
            db db' r h in
        let (a, from_, h2) =
          map_read_then unfit (principal (sender_of p))
            (λ a.
              map_error unfit' (read (principal (recipient_of p))) >>= λ b. principals_part p a b)
            db db' r h1 in
        let (b, to_, h3) =
          map_read_then unfit' (principal (recipient_of p)) (λ b. principals_part p a b) db db' r
            h2 in
        principals-Accepted p a b db db' r locks from_ to_ owned is_pending h3

  -- What an acceptance that succeeds has done. The invitation is a live one to the caller. Either it
  -- was accepted before: then the receipt names its live match and that match's conversation, and
  -- nothing is written. Or it was pending and before its deadline at the second reading of the clock:
  -- then the participants were locked; the account and the profile of each, as locked,
  -- are those of the invitation's sender and recipient and passed the check of eligibility; the recipient is the caller, the two are an eligible pair, and their scoring gave
  -- the score that the new match keeps; no match had the key, the invitation or the pair of the new
  -- one; the row is saved as accepted with its version counted up, the conversation of the receipt is
  -- the match's, one event to the sender is queued, and no other table is written.
  pub accept_result :
      (user_id invitation_id : ℕ) (clock later : Datetime) (db db' : Db)
      (r : InvitationAcceptanceResult)
      → accept_matching_invitation to_utc unicode keys user_id invitation_id clock later db
        ≡ ok (r, db')
      → (i : MatchingInvitation) × (load_owned_invitation invitation_id user_id db ≡ ok i)
        × (((status_is i.status accepted ≡ true) × Replayed i db db' r)
            ⊎ Accepted user_id i later db db' r)
  unfolding accept_matching_invitation
  accept_result user_id invitation_id clock later db db' r h =
      let own : Db → Result MatchingInvitation = load_owned_invitation invitation_id user_id in
      let go : MatchingInvitation → Session InvitationAcceptanceResult = λ i.
        lift (utc_now clock) >>= λ at.
        require_effective i at >> accept_observed to_utc unicode keys user_id i later in
      let (i, owned, h1) =
        read_then own (λ i. by_status i.status (load_completed_result i) (go i)) db db' r h in
      elim (status_cases i.status (load_completed_result i) (go i) db db' r h1) [
        | inl (is_accepted, replay) ↦
            (i, owned, inl (is_accepted, completed-Replayed i db db' r replay))
        | inr (is_pending, h2) ↦
            let (at, _, h3) =
              lift_then (utc_now clock)
                (λ at.
                  require_effective i at >> accept_observed to_utc unicode keys user_id i later)
                db db' r h2 in
            let (_, db₁, effective, h4) =
              bind-ok_inv (require_effective i at)
                (λ _. accept_observed to_utc unicode keys user_id i later) db db' r h3 in
            let same = effective_left i at db db₁ effective in
            (
              i,
              owned,
              inr (
                  observed-Accepted user_id i later db db' r
                    (subst (λ (k : ℕ). load_owned_invitation k user_id db ≡ ok i)
                      (sym (owned_key invitation_id user_id i db owned)) owned)
                    is_pending
                    (subst
                      (λ (d : Db).
                        accept_observed to_utc unicode keys user_id i later d ≡ ok (r, db'))
                      same h4)),
            )
      ]
