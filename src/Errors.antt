-- ===== src/Errors.antt =====
-- The exceptions that the services raise, with their reason codes, and results that carry them
-- (apps/api/app/services/invitation_*.py, buddy_matches.py, buddy_match_policy.py, buddy_chat.py,
-- buddy_access.py, matching_*.py, email_outbox.py, models/invitation.py).
use buddy_web_ver.Base.{◌≡◌, refl, ◌⊎◌, inl, inr, Bool, true, false, Option, none, some}

-- The states of an invitation, which `InvitationTransitionError` names.
pub data InvitationStatus : Type 0 where
  pending accepted declined cancelled expired : InvitationStatus

pub data InvitationSendReason : Type 0 where
  message_too_many_words message_too_many_code_points self_not_allowed : InvitationSendReason
  sender_ineligible recipient_ineligible pending_limit_reached : InvitationSendReason
  pending_exists active_pair_exists : InvitationSendReason

pub data InvitationAcceptReason : Type 0 where
  not_found expired not_pending recipient_ineligible participant_ineligible : InvitationAcceptReason
  opposite_types_required active_pair_exists state_conflict : InvitationAcceptReason

pub data InvitationMutationReason : Type 0 where
  not_found expired invalid_state : InvitationMutationReason

pub data BuddyMatchActivationReason : Type 0 where
  invitation_not_accepted participant_state_invalid : BuddyMatchActivationReason
  opposite_types_required active_pair_exists : BuddyMatchActivationReason

pub data BuddyMessagePersistenceReason : Type 0 where
  active_conversation_required sender_not_participant : BuddyMessagePersistenceReason
  idempotency_key_reused : BuddyMessagePersistenceReason

pub data BuddyChatReadReason : Type 0 where
  conversation_not_found message_not_found invalid_cursor : BuddyChatReadReason

pub data MatchingIneligibilityReason : Type 0 where
  profile_incomplete account_inactive account_deleted : MatchingIneligibilityReason
  email_verification_required matching_opt_in_required : MatchingIneligibilityReason

-- The text of a plain `ValueError`.
pub data Complaint : Type 0 where
  not_aware before_deadline predates_creation not_accepted hidden_predates_acceptance : Complaint
  two_distinct_users message_too_long limit_not_positive page_not_positive : Complaint
  page_size_out_of_range week_not_monday inconsistent_score blank_body : Complaint
  body_too_long wrong_random_bytes : Complaint

pub data Exception : Type 0 where
  value_error : Complaint → Exception
  transition_error : InvitationStatus → InvitationStatus → Exception
  invitation_expired : Exception
  expiry_validation : Exception
  cleanup_validation : Exception
  send_error : InvitationSendReason → Exception
  accept_error : InvitationAcceptReason → Exception
  mutation_error : InvitationMutationReason → Exception
  activation_error : BuddyMatchActivationReason → Exception
  capability_error : Option MatchingIneligibilityReason → Exception
  participant_state_error : Exception
  profile_access_error : Exception
  active_match_required : Exception
  message_error : BuddyMessagePersistenceReason → Exception
  chat_read_error : BuddyChatReadReason → Exception
  refresh_session_error token_validation_error verification_token_error : Exception
  preference_identity_error : Exception
  scoring_error : Exception
  recommendation_state recommendation_capacity : Exception
  outbox_validation : Exception
  -- An `IntegrityError` of the database: a unique index (SQLSTATE 23505), or any other constraint;
  -- and its `DataError` for a bad argument (22023).
  unique_violation constraint_violation data_exception : Exception
  runtime_error : Exception

pub data Result {ℓ} (A : Type ℓ) : Type ℓ where
  ok : A → Result A
  err : Exception → Result A

infixl 5 ◌>>=◌ ◌>>◌
abbrev pub ◌>>=◌ {ℓ κ} : {A : Type ℓ} {B : Type κ} → Result A → (A → Result B) → Result B
ok a >>= f = f a
err e >>= f = err e

abbrev pub ◌>>◌ {ℓ κ} : {A : Type ℓ} {B : Type κ} → Result A → Result B → Result B
m >> k = m >>= λ _. k

-- `if test: raise e`
abbrev pub raise_if : Bool → Exception → Result (Unit {0})
raise_if true e = err e
raise_if false e = ok tt

abbrev pub or_raise {ℓ} : {A : Type ℓ} → Option A → Exception → Result A
or_raise none e = err e
or_raise (some a) e = ok a

pub or_raise_inv {ℓ} :
    {A : Type ℓ} (o : Option A) (e : Exception) (a : A) → or_raise o e ≡ ok a → o ≡ some a
or_raise_inv none e a h = cc
or_raise_inv (some x) e a h = cc

abbrev pub is_ok {ℓ} : {A : Type ℓ} → Result A → Bool
is_ok (ok a) = true
is_ok (err e) = false

pub Result-cases {ℓ} :
    {A : Type ℓ} (r : Result A) → ((a : A) × (r ≡ ok a)) ⊎ ((e : Exception) × (r ≡ err e))
Result-cases (ok a) = inl (a, refl)
Result-cases (err e) = inr (e, refl)

-- A chain that succeeds is two steps that do.
pub ok_inv {ℓ κ} :
    {A : Type ℓ} {B : Type κ} (m : Result A) (f : A → Result B) (b : B)
    → (m >>= f) ≡ ok b
    → (a : A) × (m ≡ ok a) × (f a ≡ ok b)
ok_inv (ok a) f b h = (a, refl, h)
ok_inv (err e) f b h = cc
