-- ===== src/Tests/Sending.antt =====
-- A send between two complete profiles, and the theorems about completion and sending applied to it.
use buddy_web_ver.Base.{ℕ, ◌*◌, ◌≤◌, ◌≡◌, ◌↔◌, refl, true, false, none, some, [], ◌∷◌, length}
use buddy_web_ver.Errors.{InvitationStatus, pending, ok, err, capability_error}
use buddy_web_ver.Time.{aware, day}
use buddy_web_ver.Text.{Text, codes, strip, count_runs, collapse_whitespace, is_space, uuid_text}
use buddy_web_ver.Models.User.{User, user, admin}
use buddy_web_ver.Models.Profile.{
  StudentProfile, ProfilePhoto, StudentType, vietnamese, international,
}
use buddy_web_ver.Models.Catalog.{CatalogItem}
use buddy_web_ver.Models.Json.{field, end_fields, text}
use buddy_web_ver.Models.Invitation.{
  MatchingInvitation, IsStored, expire, transition, invitation_expires_at,
}
use buddy_web_ver.Models.Match.{canonical_user_pair}
use buddy_web_ver.Invitations.Message.{CanonicalInvitationMessage, canonicalize_invitation_message}
use buddy_web_ver.Models.Outbox.{TransactionalOutbox}
use buddy_web_ver.Db.{Db, save_invitation, insert_invitation}
use buddy_web_ver.Matching.Eligibility.{EligibleMatchingPrincipal, matching_pair_is_eligible}
use buddy_web_ver.Profiles.Completion.{
  ProfileCompletion, derive_profile_completion, missing_fields_of, reasons_of, completion_explained,
  complete,
}
use buddy_web_ver.Profiles.Counts.{
  get_profile_completion, count_valid_interests, count_valid_languages, catalog_keys,
  count_distinct, count_ready_avatars,
}
use buddy_web_ver.Profiles.Access.{
  VerifiedBuddyPrincipal, get_eligible_matching_principal, principal_outcome, first_reason,
}
use buddy_web_ver.Invitations.Sending.{send_matching_invitation, send_between, store_invitation}
use buddy_web_ver.Invitations.Sending.Participants.{
  SendParticipants, lock_and_revalidate_pair, lock_users, lock_profiles, is_available_user,
}
use buddy_web_ver.Invitations.Sending.Rejections.{
  expire_or_reject_pending_pair, reject_active_pair, require_pending_capacity, pending_of,
  max_outgoing_pending_invitations,
}
use buddy_web_ver.Invitations.Sending.Results.{send_capacity, send-IsStored, send_writes}
use buddy_web_ver.Accounts.Email.{
  canonicalize_email, is_valid_local_part, is_valid_domain, domain_labels, is_domain_label,
}
use buddy_web_ver.Outbox.Payload.{
  validated_payload, contains_sensitive_key, is_sensitive_key, is_json_safe,
}
use buddy_web_ver.Outbox.Event.{outbox_row, validate_identifier}
use buddy_web_ver.Outbox.Enqueue.{enqueue_transactional_email, insert_outbox}
use buddy_web_ver.Preferences.{
  normalize_preference_key, normalize_preference_identity, contains_unsafe_control,
}
use buddy_web_ver.Tests.Data.{ascii, empty_db, sent}

abbrev pub student : ℕ → Text → User
student id email = record {
  id = id;
  email = email;
  role = user;
  is_active = true;
  email_verified = false;
  email_verified_at = some 10;
  deleted_at = none;
  semester_id = some 5;
}

abbrev pub profile_of : ℕ → ℕ → StudentType → StudentProfile
profile_of id user_id kind = record {
  id = id;
  user_id = user_id;
  full_name = some (codes "Mai");
  student_type = some kind;
  major = none;
  availability = none;
  matching_opt_in = true;
  onboarding_completed_at = none;
  deleted_at = none;
}

abbrev avatar_of : ℕ → ℕ → ProfilePhoto
avatar_of id profile_id = record {
  id = id;
  profile_id = profile_id;
  is_avatar = true;
  is_ready = true;
  deleted_at = none;
}

abbrev item_of : ℕ → Text → Text → CatalogItem
item_of id code label = record {
  id = id;
  code = code;
  label_en = label;
  label_de = label;
  is_active = true;
  deleted_at = none;
}

-- Two complete profiles, and an invitation between them that is past its deadline.
abbrev pub school : Db
school = record empty_db {
  users = student 1 (codes "a@x.vn") ∷ student 2 (codes "b@x.de") ∷ [];
  profiles = profile_of 11 1 vietnamese ∷ profile_of 12 2 international ∷ [];
  photos = avatar_of 21 11 ∷ avatar_of 22 12 ∷ [];
  interests = item_of 31 [] (codes "Art") ∷ [];
  languages = item_of 41 (codes "de") (codes "German") ∷ [];
  profile_interests =
      record { profile_id = 11; item_id = 31 } ∷ record { profile_id = 12; item_id = 31 } ∷ [];
  profile_languages =
      record { profile_id = 11; language_code = codes "de" }
      ∷ record { profile_id = 12; language_code = codes "de" }
      ∷ [];
  invitations = sent ∷ [];
}

abbrev principal : EligibleMatchingPrincipal
principal = record { user_id = 1; profile_id = 11; student_type = vietnamese; semester_id = some 5 }

abbrev full_completion : ProfileCompletion
full_completion = record {
  status = complete;
  percentage = 100;
  missing_fields = [];
  matching_eligible = true;
  reasons = [];
}

completion_runs :
    get_profile_completion ascii (student 1 (codes "a@x.vn")) (profile_of 11 1 vietnamese) school
    ≡ ok full_completion
unfolding get_profile_completion count_valid_interests catalog_keys normalize_preference_key
    normalize_preference_identity contains_unsafe_control collapse_whitespace is_space
    count_valid_languages derive_profile_completion missing_fields_of reasons_of count_distinct
    count_ready_avatars strip
completion_runs = refl

sending_now : ℕ
sending_now = 8 * day

abbrev new_row : MatchingInvitation
new_row = record {
  id = 9;
  sender_id = 1;
  recipient_id = 2;
  message = codes "Hallo";
  status = pending;
  created_at = some (8 * day);
  expires_at = 15 * day;
  responded_at = none;
  cancelled_at = none;
  expired_at = none;
  sender_hidden_at = none;
  deleted_at = none;
  version = 1;
}

abbrev new_event : TransactionalOutbox
new_event = record {
  id = 51;
  event_type = codes "MATCHING_INVITATION_CREATED";
  aggregate_id = 9;
  recipient_user_id = some 2;
  recipient_email = codes "b@x.de";
  idempotency_key = codes "matching-invitation-created:00000000-0000-0000-0000-000000000009";
  payload =
      field (codes "invitation_id") (text (codes "00000000-0000-0000-0000-000000000009"))
        end_fields;
  attempts = 0;
  next_attempt_at = 8 * day;
  lease_owner = none;
  lease_expires_at = none;
  sent_at = none;
  failed_at = none;
  provider_message_id = none;
  last_error_code = none;
  created_at = 8 * day;
  updated_at = 8 * day;
  deleted_at = none;
}

abbrev school_after : Db
school_after = record school {
  invitations =
      new_row
      ∷ record sent { status = InvitationStatus.expired; expired_at = some (8 * day); version = 2 }
      ∷ [];
  outbox = new_event ∷ [];
}

send_runs :
    send_matching_invitation ascii 9 51 principal 12 (codes " Hallo ") (aware (8 * day)) school
    ≡ ok (new_row, school_after)
unfolding send_matching_invitation canonicalize_invitation_message count_runs
    lock_and_revalidate_pair lock_users is_available_user lock_profiles
    get_eligible_matching_principal get_profile_completion count_valid_interests catalog_keys
    normalize_preference_key normalize_preference_identity contains_unsafe_control
    collapse_whitespace is_space count_valid_languages derive_profile_completion missing_fields_of
    reasons_of count_distinct count_ready_avatars strip matching_pair_is_eligible send_between
    expire_or_reject_pending_pair canonical_user_pair expire transition save_invitation
    reject_active_pair require_pending_capacity store_invitation invitation_expires_at
    insert_invitation enqueue_transactional_email outbox_row validate_identifier canonicalize_email
    is_valid_local_part is_valid_domain domain_labels is_domain_label validated_payload
    contains_sensitive_key is_sensitive_key is_json_safe insert_outbox uuid_text
send_runs = refl

completion_explained_example :
    let c =
      derive_profile_completion (student 1 (codes "a@x.vn")) (profile_of 11 1 vietnamese) 1 1 0 in
    (user ≡ user → (c.matching_eligible ≡ true) ↔ (c.reasons ≡ []))
    × (user ≡ admin → c.matching_eligible ≡ false)
    × ((c.status ≡ complete) ↔ (c.percentage ≡ 100))
    × ((c.status ≡ complete) ↔ (c.missing_fields ≡ []))
    × (c.percentage ≤ 100)
completion_explained_example =
    completion_explained (student 1 (codes "a@x.vn")) (profile_of 11 1 vietnamese) 1 1 0

abbrev mai : VerifiedBuddyPrincipal
mai = record { owner = student 1 (codes "a@x.vn"); profile = profile_of 11 1 vietnamese }

principal_outcome_example :
    (true ≡ true
      → (kind : StudentType) × (some vietnamese ≡ some kind)
        × (get_eligible_matching_principal ascii mai school
            ≡ ok (record {
              user_id = 1;
              profile_id = 11;
              student_type = kind;
              semester_id = some 5;
            })))
    × (true ≡ false
        → get_eligible_matching_principal ascii mai school
          ≡ err (capability_error (first_reason [])))
principal_outcome_example =
    principal_outcome ascii mai school 5 full_completion refl completion_runs

abbrev hallo : CanonicalInvitationMessage
hallo = record { value = codes "Hallo"; words = 1; code_points = 5 }

abbrev send_pair : SendParticipants
send_pair = record {
  sender_user = student 1 (codes "a@x.vn");
  recipient_user = student 2 (codes "b@x.de");
  sender = principal;
  recipient = record {
    user_id = 2;
    profile_id = 12;
    student_type = international;
    semester_id = some 5;
  };
}

send_capacity_example :
    length (pending_of 1 (8 * day) school_after.invitations) ≤ max_outgoing_pending_invitations
send_capacity_example =
    send_capacity ascii 9 51 principal 12 (codes " Hallo ") (aware (8 * day)) school school_after
      new_row send_runs (8 * day) refl

send-IsStored_example :
    IsStored new_row × (new_row.status ≡ pending) × (new_row.sender_id ≡ principal.user_id)
send-IsStored_example =
    send-IsStored ascii 9 51 principal 12 (codes " Hallo ") (aware (8 * day)) school school_after
      new_row send_runs

send_writes_example :
    (row : TransactionalOutbox) × (school_after
      ≡ record school { invitations = school_after.invitations; outbox = row ∷ school.outbox })
    × (row.aggregate_id ≡ 9)
    × (row.recipient_user_id ≡ some 2)
send_writes_example =
    send_writes ascii 9 51 principal 12 (codes " Hallo ") (aware (8 * day)) school school_after
      new_row send_runs
