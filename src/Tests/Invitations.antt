-- ===== src/Tests/Invitations.antt =====
-- The invitation theorems at concrete rows, and runs of the services.
use buddy_web_ver.Base.{
  ℕ, ◌≤◌, ◌≡◌, ◌≢◌, refl, false, List, [], ◌∷◌, All, length, select, elem, min, arith, ◌*◌, Bool,
  inl,
}
use buddy_web_ver.Errors.{
  InvitationMutationReason, pending, accepted, declined, cancelled, mutation_error, ok, err,
}
use buddy_web_ver.Time.{Datetime, aware, naive, day}
use buddy_web_ver.Text.{Text, codes, strip, count_runs}
use buddy_web_ver.Models.Invitation.{MatchingInvitation, IsStored, stamp}
use buddy_web_ver.Models.Invitation.Histories.{
  Method, accepts, declines, expires, hides, history, SameOutcome, history-SameOutcome,
  history-IsStored,
}
use buddy_web_ver.Invitations.Message.{CanonicalInvitationMessage, canonicalize_invitation_message}
use buddy_web_ver.Invitations.Expiry.{expire_invitation_batch}
use buddy_web_ver.Invitations.Expiry.Batch.{may_take}
use buddy_web_ver.Invitations.Expiry.Drain.{batch_drains}
use buddy_web_ver.Invitations.Mutations.{
  decline_matching_invitation, cancel_matching_invitation, hide_accepted_invitation_from_sender,
}
use buddy_web_ver.Invitations.Mutations.Outcome.{
  Outcome, stranger_not_found, decline_outcome, cancel_outcome, written,
}
use buddy_web_ver.Db.{Db}
use buddy_web_ver.Invitations.Expiry.Order.{ids}
use buddy_web_ver.Invitations.Expiry.Taken.{Taken}
use buddy_web_ver.Db.Tables.{find}
use buddy_web_ver.Tests.Data.{
  sent, answered, second_sent, sent-IsStored, second_sent-IsStored, empty_db, two_sent,
}

accepted_not_pending : accepted ≢ pending
accepted_not_pending e = cc

abbrev late_calls : List (Method × Datetime)
late_calls = (declines, aware 2500) ∷ (hides, aware 3000) ∷ (expires, aware (100 * day)) ∷ []

history-SameOutcome_example : SameOutcome answered (history late_calls answered)
history-SameOutcome_example = history-SameOutcome late_calls answered accepted_not_pending

abbrev refused_calls : List (Method × Datetime)
refused_calls = (hides, aware 1500) ∷ (accepts, naive 1500) ∷ (expires, aware 2000) ∷ []

history-IsStored_example : IsStored (history ((accepts, aware 2000) ∷ late_calls) sent)
history-IsStored_example = history-IsStored ((accepts, aware 2000) ∷ late_calls) sent sent-IsStored

-- Messages.
abbrev greeting : Text
greeting = codes "  hello  you "

abbrev greeting_canonical : CanonicalInvitationMessage
greeting_canonical = record { value = codes "hello  you"; words = 2; code_points = 10 }

greeting_runs : canonicalize_invitation_message greeting ≡ ok greeting_canonical
unfolding canonicalize_invitation_message strip count_runs
greeting_runs = refl

none_locked : ℕ → Bool
none_locked k = false

two_sent-IsStored : All IsStored two_sent.invitations
two_sent-IsStored = (sent-IsStored, (second_sent-IsStored, tt))

batch_drains_example :
    (expired_ids : List ℕ) × (db' : Db) × (expire_invitation_batch none_locked 20
        (aware (8 * day))
        two_sent
      ≡ ok (expired_ids, db'))
    × ((rows : List MatchingInvitation) × (expired_ids ≡ ids rows)
        × Taken none_locked (8 * day) two_sent.invitations rows)
    × (length expired_ids
        ≡ min 20 (length (select (may_take none_locked (8 * day)) two_sent.invitations)))
    × ((k : ℕ) → elem k expired_ids ≡ false → find k db'.invitations ≡ find k two_sent.invitations)
    × (length (select (may_take none_locked (8 * day)) two_sent.invitations) ≤ 20
        → select (may_take none_locked (8 * day)) db'.invitations ≡ [])
batch_drains_example =
    batch_drains none_locked (8 * day) 20 two_sent two_sent-IsStored (omega arith) (omega arith)

-- Mutations.
stranger_not_found_example :
    (decline_matching_invitation 1 7 (aware 2000) two_sent
      ≡ err (mutation_error InvitationMutationReason.not_found))
    × (cancel_matching_invitation 2 7 (aware 2000) two_sent
        ≡ err (mutation_error InvitationMutationReason.not_found))
    × (hide_accepted_invitation_from_sender 2 7 (aware 2000) two_sent
        ≡ err (mutation_error InvitationMutationReason.not_found))
stranger_not_found_example =
    stranger_not_found 1 2 7 (aware 2000) two_sent
      ((λ _. inl (λ e. omega (arith, e))), ((λ e. omega (arith, e)), tt))
      ((λ _. inl (λ e. omega (arith, e))), ((λ e. omega (arith, e)), tt))

decline_outcome_example :
    decline_matching_invitation 2 7 (aware 2000) two_sent ≡ Outcome declined 2000 sent two_sent
decline_outcome_example = decline_outcome 2 7 2000 1000 two_sent sent refl refl (omega arith)

cancel_outcome_example :
    cancel_matching_invitation 1 8 (aware 2000) two_sent
    ≡ Outcome cancelled 2000 second_sent two_sent
cancel_outcome_example = cancel_outcome 1 8 2000 1000 two_sent second_sent refl refl (omega arith)

abbrev after_decline : Db
after_decline = written (stamp declined 2000 sent) two_sent

declined_result :
    decline_matching_invitation 2 7 (aware 2000) two_sent
    ≡ ok (record { invitation_id = 7; status = declined }, after_decline)
declined_result = decline_outcome 2 7 2000 1000 two_sent sent refl refl (omega arith)

abbrev after_cancel : Db
after_cancel = written (stamp cancelled 2000 sent) two_sent

cancelled_result :
    cancel_matching_invitation 1 7 (aware 2000) two_sent
    ≡ ok (record { invitation_id = 7; status = cancelled }, after_cancel)
cancelled_result = cancel_outcome 1 7 2000 1000 two_sent sent refl refl (omega arith)

abbrev accepted_db : Db
accepted_db = record empty_db { invitations = answered ∷ [] }
