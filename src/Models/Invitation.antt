-- ===== src/Models/Invitation.antt =====
-- The invitation row, its transition methods and its database constraints
-- (apps/api/app/models/invitation.py). Stored timestamps are instants in microseconds; identifiers
-- are the numbers `UUID.int`, by which PostgreSQL orders them too.
pub mod Lifecycle
pub mod Constraints
pub mod Histories
use buddy_web_ver.Base.{
  ℕ, ◌+◌, ◌*◌, ◌≡◌, Bool, true, false, not, ◌&&◌, ◌||◌, Option, none, some, List, ltb, leb, ◌==◌,
  if◌then◌else◌, is_none, is_some, length, text_eq, min, max,
}
use buddy_web_ver.Errors.{
  InvitationStatus, pending, accepted, declined, cancelled, Exception, value_error,
  transition_error, invitation_expired, Complaint, Result, ok, err, ◌>>=◌, ◌>>◌, raise_if,
}
use buddy_web_ver.Time.{Datetime, aware, require_aware, day}
use buddy_web_ver.Text.{Text, strip, btrim}

abbrev pub invitation_expiry_interval : ℕ
invitation_expiry_interval = 7 * day

abbrev pub max_invitation_message_code_points : ℕ
max_invitation_message_code_points = 10_000

pub record MatchingInvitation : Type 0 where
  pub id : ℕ
  pub sender_id : ℕ
  pub recipient_id : ℕ
  pub message : Text
  pub status : InvitationStatus
  pub created_at : Option ℕ
  pub expires_at : ℕ
  pub responded_at : Option ℕ
  pub cancelled_at : Option ℕ
  pub expired_at : Option ℕ
  pub sender_hidden_at : Option ℕ
  pub deleted_at : Option ℕ
  pub version : ℕ

-- `left is right` on states.
abbrev pub status_is : InvitationStatus → InvitationStatus → Bool
status_is pending pending = true
status_is accepted accepted = true
status_is declined declined = true
status_is cancelled cancelled = true
status_is InvitationStatus.expired InvitationStatus.expired = true
status_is _ _ = false

-- `status in TERMINAL_INVITATION_STATUSES`
abbrev pub is_terminal : InvitationStatus → Bool
is_terminal pending = false
is_terminal accepted = true
is_terminal declined = true
is_terminal cancelled = true
is_terminal InvitationStatus.expired = true

-- The columns that the database computes.
abbrev pub pair_low_user_id : MatchingInvitation → ℕ
pair_low_user_id i = min i.sender_id i.recipient_id

abbrev pub pair_high_user_id : MatchingInvitation → ℕ
pair_high_user_id i = max i.sender_id i.recipient_id

unfoldable pub invitation_expires_at : Datetime → Result ℕ
invitation_expires_at sent_at = do t ← require_aware sent_at; ok (t + invitation_expiry_interval)

-- `@validates("message")`
unfoldable pub validate_message : Text → Result Text
validate_message value =
    let canonical = strip value in
    if ltb max_invitation_message_code_points (length canonical)
    then err (value_error Complaint.message_too_long)
    else ok canonical

-- `created_at is not None and transition_time < created_at`
abbrev pub predates : ℕ → Option ℕ → Bool
predates t none = false
predates t (some created) = ltb t created

-- The assignments at the end of `_transition`.
abbrev pub stamp : InvitationStatus → ℕ → MatchingInvitation → MatchingInvitation
stamp target t i =
    if status_is target accepted || status_is target declined
    then record i { status = target; responded_at = some t }
    else if status_is target cancelled
    then record i { status = target; cancelled_at = some t }
    else record i { status = target; expired_at = some t }

unfoldable pub transition :
    InvitationStatus → Datetime → MatchingInvitation → Result MatchingInvitation
transition target at i = do
  t ← require_aware at
  raise_if (not (status_is i.status pending) || not (is_terminal target))
      (transition_error i.status target)
  raise_if (not (status_is target InvitationStatus.expired) && leb i.expires_at t)
      invitation_expired
  raise_if (predates t i.created_at) (value_error Complaint.predates_creation)
  ok (stamp target t i)

unfoldable pub accept : Datetime → MatchingInvitation → Result MatchingInvitation
unfolding transition
accept at i = transition accepted at i

unfoldable pub decline : Datetime → MatchingInvitation → Result MatchingInvitation
unfolding transition
decline at i = transition declined at i

unfoldable pub cancel : Datetime → MatchingInvitation → Result MatchingInvitation
unfolding transition
cancel at i = transition cancelled at i

unfoldable pub expire : Datetime → MatchingInvitation → Result MatchingInvitation
unfolding transition
expire at i = do
  t ← require_aware at
  raise_if (ltb t i.expires_at) (value_error Complaint.before_deadline)
  transition InvitationStatus.expired (aware t) i

-- The part of `hide_from_sender` after the time zone is checked.
hide_at : ℕ → Option ℕ → Option ℕ → MatchingInvitation → Result (MatchingInvitation × Bool)
hide_at t none hidden i = err (value_error Complaint.not_accepted)
hide_at t (some responded) (some hidden) i = ok (i, false)
hide_at t (some responded) none i = do
  raise_if (ltb t responded) (value_error Complaint.hidden_predates_acceptance)
  ok (record i { sender_hidden_at = some t }, true)

unfoldable pub hide_from_sender : Datetime → MatchingInvitation → Result (MatchingInvitation × Bool)
unfolding hide_at
hide_from_sender at i = do
  t ← require_aware at
  raise_if (not (status_is i.status accepted)) (value_error Complaint.not_accepted)
  hide_at t i.responded_at i.sender_hidden_at i

-- `ck_matching_invitations_status_timestamps`
abbrev pub status_timestamps : MatchingInvitation → Bool
status_timestamps i = elim i.status [
  | pending ↦
      is_none i.responded_at
      && is_none i.cancelled_at
      && is_none i.expired_at
      && is_none i.sender_hidden_at
  | accepted ↦ is_some i.responded_at && is_none i.cancelled_at && is_none i.expired_at
  | declined ↦
      is_some i.responded_at
      && is_none i.cancelled_at
      && is_none i.expired_at
      && is_none i.sender_hidden_at
  | cancelled ↦
      is_none i.responded_at
      && is_some i.cancelled_at
      && is_none i.expired_at
      && is_none i.sender_hidden_at
  | InvitationStatus.expired ↦
      is_none i.responded_at
      && is_none i.cancelled_at
      && is_some i.expired_at
      && is_none i.sender_hidden_at
]

-- `later IS NULL OR later >= earlier`, where SQL's comparison with a missing `earlier` is unknown,
-- which a check constraint lets pass.
abbrev pub not_before : Option ℕ → Option ℕ → Bool
not_before none earlier = true
not_before (some t) none = true
not_before (some t) (some earlier) = leb earlier t

-- `ck_matching_invitations_timestamp_order`
abbrev pub timestamp_order : MatchingInvitation → Bool
timestamp_order i =
    not_before i.responded_at i.created_at
    && not_before i.cancelled_at i.created_at
    && not_before i.expired_at (some i.expires_at)
    && not_before i.sender_hidden_at i.responded_at

-- `ck_matching_invitations_expiry_interval`
abbrev pub expiry_interval : MatchingInvitation → Bool
expiry_interval i = elim i.created_at [
  | none ↦ true
  | some created ↦ i.expires_at == created + invitation_expiry_interval
]

-- `ck_matching_invitations_message_canonical_length`
abbrev pub message_canonical : Text → Bool
message_canonical m = text_eq m (btrim m) && leb (length m) max_invitation_message_code_points

-- The table's check constraints, all of them, and `created_at`, which is NOT NULL.
pub record IsStored (i : MatchingInvitation) : Type 0 where
  pub has_created_at : is_some i.created_at ≡ true
  pub distinct_participants : (i.sender_id == i.recipient_id) ≡ false
  pub canonical_pair : ltb (pair_low_user_id i) (pair_high_user_id i) ≡ true
  pub has_canonical_message : message_canonical i.message ≡ true
  pub has_expiry_interval : expiry_interval i ≡ true
  pub has_status_timestamps : status_timestamps i ≡ true
  pub has_timestamp_order : timestamp_order i ≡ true
  pub version_positive : leb 1 i.version ≡ true
