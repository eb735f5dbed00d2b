-- ===== src/Invitations/Mutations/Outcome.antt =====
-- What Decline, Cancel and Hide answer and write, by the state of the invitation.
use buddy_web_ver.Base.{
  All, List, [], ◌∷◌, refl, ◌≢◌, ◌⊎◌, ℕ, ◌+◌, ◌≤◌, ◌≡◌, none, some, arith, ltb, is_none, scalar,
  if◌then◌else◌,
}
use buddy_web_ver.Errors.{
  InvitationStatus, InvitationMutationReason, pending, accepted, declined, cancelled,
  mutation_error, Result, ok, err,
}
use buddy_web_ver.Time.{Datetime, aware}
use buddy_web_ver.Models.Invitation.{
  MatchingInvitation, status_is, decline, cancel, hide_from_sender, stamp,
}
use buddy_web_ver.Db.{Db, save_invitation, ◌>>=◌}
use buddy_web_ver.Db.Tables.{put}
use buddy_web_ver.Invitations.Expiry.{effective_invitation_status}
use buddy_web_ver.Invitations.Mutations.{
  InvitationMutationResult, recipient, sender, InvitationOwner, is_owned,
  load_owned_invitation_for_update, decline_matching_invitation, cancel_matching_invitation,
  hide_accepted_invitation_from_sender, decline_locked, cancel_locked, hide_locked,
}

-- An invitation as it is written: with the next version.
abbrev pub versioned : MatchingInvitation → MatchingInvitation
versioned j = record j { version = j.version + 1 }

-- The tables after one invitation was written.
abbrev pub written : MatchingInvitation → Db → Db
written j db = record db { invitations = put (versioned j) db.invitations }

-- The answers that Decline and Cancel give to the invitation that they have locked, by its state:
-- `target` is the state that they lead to. A repeated call succeeds and writes nothing, a
-- pending invitation is answered before its deadline, and one that is over or in another state is
-- refused.
abbrev pub Outcome :
    InvitationStatus → ℕ → MatchingInvitation → Db → Result (InvitationMutationResult × Db)
Outcome target t i db =
    if status_is i.status target
    then ok (record { invitation_id = i.id; status = target }, db)
    else if status_is i.status InvitationStatus.expired
    then err (mutation_error InvitationMutationReason.expired)
    else if status_is i.status pending
    then (if ltb t i.expires_at
        then ok (record { invitation_id = i.id; status = target }, written (stamp target t i) db)
        else err (mutation_error InvitationMutationReason.expired))
    else err (mutation_error InvitationMutationReason.invalid_state)

module _ (t c : ℕ) (i : MatchingInvitation) (db : Db) (created : i.created_at ≡ some c)
    (h : c ≤ t) where
  decline_locked-outcome : decline_locked (aware t) i db ≡ Outcome declined t i db
  unfolding decline_locked decline save_invitation effective_invitation_status
  decline_locked-outcome = ground arith

  cancel_locked-outcome : cancel_locked (aware t) i db ≡ Outcome cancelled t i db
  unfolding cancel_locked cancel save_invitation effective_invitation_status
  cancel_locked-outcome = ground arith

pub load_found :
    (k u : ℕ) (o : InvitationOwner) (db : Db) (i : MatchingInvitation)
    → scalar (is_owned k u o) db.invitations ≡ some i
    → load_owned_invitation_for_update k u o db ≡ ok (i, db)
unfolding load_owned_invitation_for_update
load_found k u o db i found = rw found

load_missing :
    (k u : ℕ) (o : InvitationOwner) (db : Db)
    → scalar (is_owned k u o) db.invitations ≡ none
    → load_owned_invitation_for_update k u o db
      ≡ err (mutation_error InvitationMutationReason.not_found)
unfolding load_owned_invitation_for_update
load_missing k u o db e = rw e

-- No row that is out of reach is found.
none_owned :
    (k u : ℕ) (is : List MatchingInvitation)
    → (All (λ i. i.id ≡ k → (i.recipient_id ≢ u) ⊎ (i.deleted_at ≢ none)) is
        → scalar (is_owned k u recipient) is ≡ none)
      × (All (λ i. i.id ≡ k → (i.sender_id ≢ u) ⊎ (i.deleted_at ≢ none)) is
          → scalar (is_owned k u sender) is ≡ none)
none_owned k u [] = (λ h. refl, λ h. refl)
none_owned k u (i ∷ is) =
    let (received, sent) = none_owned k u is in
    (λ (a, rest). ground (arith, a, received rest), λ (a, rest). ground (arith, a, sent rest))

-- Nobody but the owner reaches an invitation, and a deleted one is out of reach. Where each row with
-- the key has another recipient or is deleted, Decline raises NOT_FOUND; and where each has another
-- sender or is deleted, so do Cancel and Hide.
pub stranger_not_found :
    (u v k : ℕ) (at : Datetime) (db : Db)
    → All (λ i. i.id ≡ k → (i.recipient_id ≢ u) ⊎ (i.deleted_at ≢ none)) db.invitations
    → All (λ i. i.id ≡ k → (i.sender_id ≢ v) ⊎ (i.deleted_at ≢ none)) db.invitations
    → (decline_matching_invitation u k at db
        ≡ err (mutation_error InvitationMutationReason.not_found))
      × (cancel_matching_invitation v k at db
          ≡ err (mutation_error InvitationMutationReason.not_found))
      × (hide_accepted_invitation_from_sender v k at db
          ≡ err (mutation_error InvitationMutationReason.not_found))
unfolding decline_matching_invitation cancel_matching_invitation
    hide_accepted_invitation_from_sender
stranger_not_found u v k at db received sent =
    let at_recipient = load_missing k u recipient db ((none_owned k u db.invitations).0 received) in
    let at_sender = load_missing k v sender db ((none_owned k v db.invitations).1 sent) in
    (rw (at_recipient, ◌>>=◌), rw (at_sender, ◌>>=◌), rw (at_sender, ◌>>=◌))

-- Decline, on the invitation that its recipient owns, at a time not before its creation: it never
-- raises a `ValueError` of the model, and its result and the tables that it leaves are `Outcome`.
pub decline_outcome :
    (u k t c : ℕ) (db : Db) (i : MatchingInvitation)
    → scalar (is_owned k u recipient) db.invitations ≡ some i
    → i.created_at ≡ some c
    → c ≤ t
    → decline_matching_invitation u k (aware t) db ≡ Outcome declined t i db
unfolding decline_matching_invitation
decline_outcome u k t c db i found created h =
    rw (load_found k u recipient db i found, ◌>>=◌) (decline_locked-outcome t c i db created h)

-- Cancel, on the invitation that its sender owns, at a time not before its creation: it never
-- raises a `ValueError` of the model, and its result and the tables that it leaves are `Outcome`.
pub cancel_outcome :
    (u k t c : ℕ) (db : Db) (i : MatchingInvitation)
    → scalar (is_owned k u sender) db.invitations ≡ some i
    → i.created_at ≡ some c
    → c ≤ t
    → cancel_matching_invitation u k (aware t) db ≡ Outcome cancelled t i db
unfolding cancel_matching_invitation
cancel_outcome u k t c db i found created h =
    rw (load_found k u sender db i found, ◌>>=◌) (cancel_locked-outcome t c i db created h)

-- A hidden invitation, as it is written.
abbrev pub hidden : ℕ → MatchingInvitation → MatchingInvitation
hidden t i = versioned (record i { sender_hidden_at = some t })

-- Hide, on the invitation that its sender owns: only an accepted invitation can be hidden, at a
-- time not before its acceptance; the first call writes the mark and nothing else, and a later one
-- succeeds and writes nothing.
pub hide_outcome :
    (u k t a : ℕ) (db : Db) (i : MatchingInvitation)
    → scalar (is_owned k u sender) db.invitations ≡ some i
    → i.responded_at ≡ some a
    → a ≤ t
    → hide_accepted_invitation_from_sender u k (aware t) db ≡ (
        if status_is i.status accepted
        then ok (
          record { invitation_id = i.id; status = accepted },
          (if is_none i.sender_hidden_at
              then record db { invitations = put (hidden t i) db.invitations }
              else db),
        )
        else err (mutation_error InvitationMutationReason.invalid_state))
unfolding hide_accepted_invitation_from_sender hide_locked hide_from_sender save_invitation
hide_outcome u k t a db i found answered h =
    rw (load_found k u sender db i found, ◌>>=◌) (ground arith)
