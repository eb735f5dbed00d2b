-- ===== src/Models/Invitation/Histories.antt =====
-- Calls of an invitation's methods in any order and at any times: what a history keeps.
use buddy_web_ver.Base.{◌≡◌, ◌≢◌, refl, ◌∙◌, sym, ◌⊎◌, inl, inr, Bool, List, [], ◌∷◌, arith}
use buddy_web_ver.Errors.{pending, Result, ok, err, ◌>>=◌}
use buddy_web_ver.Time.{Datetime}
use buddy_web_ver.Models.Invitation.{
  MatchingInvitation, IsStored, accept, decline, cancel, expire, hide_from_sender,
}
use buddy_web_ver.Models.Invitation.Constraints.{
  accept-IsStored, decline-IsStored, cancel-IsStored, expire-IsStored, hide-IsStored,
}

-- The methods that change a row.
pub data Method : Type 0 where
  accepts declines cancels expires hides : Method

unfoldable pub call : Method → Datetime → MatchingInvitation → Result MatchingInvitation
unfolding accept decline cancel expire hide_from_sender
call accepts at i = accept at i
call declines at i = decline at i
call cancels at i = cancel at i
call expires at i = expire at i
call hides at i = do (j, changed) ← hide_from_sender at i; ok j

-- A method assigns after its last check, so that a call which raises leaves the row as it was.
unfoldable pub after : MatchingInvitation → Result MatchingInvitation → MatchingInvitation
after i (ok j) = j
after i (err e) = i

unfoldable pub history : List (Method × Datetime) → MatchingInvitation → MatchingInvitation
history [] i = i
history ((m, at) ∷ calls) i = history calls (after i (call m at i))

-- What no method touches once the row has left PENDING.
pub record SameOutcome (i j : MatchingInvitation) : Type 0 where
  pub same_status : j.status ≡ i.status
  pub same_response : j.responded_at ≡ i.responded_at
  pub same_cancellation : j.cancelled_at ≡ i.cancelled_at
  pub same_expiry : j.expired_at ≡ i.expired_at
  pub same_deadline : j.expires_at ≡ i.expires_at

call-SameOutcome :
    (m : Method) (at : Datetime) (i : MatchingInvitation)
    → i.status ≢ pending
    → SameOutcome i (after i (call m at i))
unfolding after call
call-SameOutcome accepts at i h = ground arith
call-SameOutcome declines at i h = ground arith
call-SameOutcome cancels at i h = ground arith
call-SameOutcome expires at i h = ground arith
call-SameOutcome hides at i h = ground arith

-- Whatever is called later, an invitation that has left PENDING keeps its state, its deadline and
-- the time at which it was answered, cancelled or expired.
pub history-SameOutcome :
    (calls : List (Method × Datetime)) (i : MatchingInvitation)
    → i.status ≢ pending
    → SameOutcome i (history calls i)
unfolding history
history-SameOutcome [] i h = ground arith
history-SameOutcome ((m, at) ∷ calls) i h =
    let j = after i (call m at i) in
    let once = call-SameOutcome m at i h in
    let later = history-SameOutcome calls j (λ e. h (sym once.same_status ∙ e)) in
    record {
      same_status = later.same_status ∙ once.same_status;
      same_response = later.same_response ∙ once.same_response;
      same_cancellation = later.same_cancellation ∙ once.same_cancellation;
      same_expiry = later.same_expiry ∙ once.same_expiry;
      same_deadline = later.same_deadline ∙ once.same_deadline;
    }

call_moves :
    (m : Method) (at : Datetime) (i : MatchingInvitation)
    → (after i (call m at i) ≡ i) ⊎ ((after i (call m at i)).status ≢ pending)
unfolding after call
call_moves accepts at i = ground arith
call_moves declines at i = ground arith
call_moves cancels at i = ground arith
call_moves expires at i = ground arith
call_moves hides at i = ground arith

-- An invitation that is still pending after a history has not been changed by it.
pub history_pending :
    (calls : List (Method × Datetime)) (i : MatchingInvitation)
    → (history calls i).status ≡ pending
    → history calls i ≡ i
unfolding history
history_pending [] i h = refl
history_pending ((m, at) ∷ calls) i h = elim (call_moves m at i) [
  | inl same ↦ history_pending calls _ h ∙ same
  | inr moved ↦ absurd (moved (sym (history-SameOutcome calls _ moved).same_status ∙ h))
]

after-IsStored :
    (i : MatchingInvitation) (r : Result MatchingInvitation)
    → IsStored i
    → ((j : MatchingInvitation) → r ≡ ok j → IsStored j)
    → IsStored (after i r)
unfolding after
after-IsStored i (ok j) s kept = kept j refl
after-IsStored i (err e) s kept = s

hides-IsStored :
    (i : MatchingInvitation) (r : Result (MatchingInvitation × Bool))
    → IsStored i
    → ((j : MatchingInvitation) (b : Bool) → r ≡ ok (j, b) → IsStored j)
    → IsStored (after i (r >>= λ p. ok p.0))
unfolding after
hides-IsStored i (ok (j, b)) s kept = kept j b refl
hides-IsStored i (err e) s kept = s

call-IsStored :
    (m : Method) (at : Datetime) (i : MatchingInvitation)
    → IsStored i
    → IsStored (after i (call m at i))
unfolding call
call-IsStored accepts at i s = after-IsStored i _ s (λ j. accept-IsStored at i j s)
call-IsStored declines at i s = after-IsStored i _ s (λ j. decline-IsStored at i j s)
call-IsStored cancels at i s = after-IsStored i _ s (λ j. cancel-IsStored at i j s)
call-IsStored expires at i s = after-IsStored i _ s (λ j. expire-IsStored at i j s)
call-IsStored hides at i s = hides-IsStored i _ s (λ j b. hide-IsStored at i j b s)

-- Every check constraint of the table outlives any history of calls.
pub history-IsStored :
    (calls : List (Method × Datetime)) (i : MatchingInvitation)
    → IsStored i
    → IsStored (history calls i)
unfolding history
history-IsStored [] i s = s
history-IsStored ((m, at) ∷ calls) i s = history-IsStored calls _ (call-IsStored m at i s)
