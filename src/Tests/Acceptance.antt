-- ===== src/Tests/Acceptance.antt =====
-- An acceptance between the two complete profiles, and the theorems about acceptance applied to it.
use buddy_web_ver.Base.{◌+◌, ◌≡◌, ◌⊎◌, refl, true, none, some, [], ◌∷◌}
use buddy_web_ver.Errors.{accepted, ok, err}
use buddy_web_ver.Time.{aware}
use buddy_web_ver.Text.{codes, strip, collapse_whitespace, is_space, uuid_text}
use buddy_web_ver.Models.Invitation.{MatchingInvitation, accept, transition, status_is}
use buddy_web_ver.Models.Match.{BuddyMatch, active, canonical_user_pair}
use buddy_web_ver.Models.Json.{field, end_fields, text}
use buddy_web_ver.Preferences.{
  normalize_preference_key, normalize_preference_identity, contains_unsafe_control,
}
use buddy_web_ver.Db.{Db, save_invitation, insert_match}
use buddy_web_ver.Invitations.Expiry.{effective_invitation_status}
use buddy_web_ver.Profiles.Completion.{derive_profile_completion, missing_fields_of, reasons_of}
use buddy_web_ver.Profiles.Counts.{
  get_profile_completion, count_valid_interests, count_valid_languages, catalog_keys,
  count_distinct, count_ready_avatars,
}
use buddy_web_ver.Profiles.Access.{get_eligible_matching_principal}
use buddy_web_ver.Matches.Participants.{
  lock_buddy_match_participants, lock_current_buddy_users, available_users, available_user,
}
use buddy_web_ver.Matches.Activation.{
  activate_buddy_match, activate_locked, activate_between, active_pair_exists, participants_of,
}
use buddy_web_ver.Chat.Conversations.{get_or_create_buddy_conversation, insert_conversation}
use buddy_web_ver.Matching.Availability.{
  ToUtc, merged_utc_intervals, availability_similarity, slot_intervals, local_minute,
}
use buddy_web_ver.Matching.Eligibility.{matching_pair_is_eligible}
use buddy_web_ver.Matching.Projection.{load_matching_pair_scoring_profiles, project_safe_profiles}
use buddy_web_ver.Matching.Scoring.{
  signal_breakdown, signal, total_points, compatibility_score, require_eligible_safe_pair,
  weighted_breakdown, profile_breakdown, score_eligible_pair,
}
use buddy_web_ver.Matching.Fractions.{◌+f◌, times, at_most, fraction_eq, fraction_le, round_half_up}
use buddy_web_ver.Matching.Identities.{
  normalized_custom_key, preference_identities, language_identities, normalized_major,
  major_similarity, jaccard, exact_overlap,
}
use buddy_web_ver.Matching.Intervals.{
  merge_from, merge_sorted, duration_microseconds, intersection_microseconds,
}
use buddy_web_ver.Accounts.Email.{
  canonicalize_email, is_valid_local_part, is_valid_domain, domain_labels, is_domain_label,
}
use buddy_web_ver.Outbox.Payload.{
  validated_payload, contains_sensitive_key, is_sensitive_key, is_json_safe,
}
use buddy_web_ver.Outbox.Event.{outbox_row, validate_identifier}
use buddy_web_ver.Outbox.Enqueue.{enqueue_transactional_email, insert_outbox}
use buddy_web_ver.Invitations.Acceptance.{
  InvitationAcceptanceResult, NewKeys, load_owned_invitation, current_reference_week_start,
  store_acceptance, require_current_eligibility, accept_pending, accept_observed,
  accept_matching_invitation, accept_expired,
}
use buddy_web_ver.Invitations.Acceptance.Replays.{Replayed}
use buddy_web_ver.Invitations.Acceptance.Outcome.{Accepted, accept_result}
use buddy_web_ver.Invitations.Acceptance.Results.{accept_refused, accept_twice}
use buddy_web_ver.Tests.Data.{ascii, sent}
use buddy_web_ver.Tests.Sending.{school}

abbrev one_hour_ahead : ToUtc
one_hour_ahead zone minute = minute + 60

abbrev keys : NewKeys
keys = record { match_id = 71; conversation_id = 81; outbox_id = 91 }

abbrev done : InvitationAcceptanceResult
done = record { invitation_id = 7; match_id = 71; conversation_id = 81 }

abbrev new_match_row : BuddyMatch
new_match_row = record {
  id = 71;
  participant_one_user_id = 1;
  participant_two_user_id = 2;
  participant_one_profile_id = 11;
  participant_two_profile_id = 12;
  status = active;
  accepted_invitation_id = 7;
  semester_id = 5;
  score = 45;
  activated_at = 3000;
  deleted_at = none;
}

abbrev accepted_school : Db
accepted_school = record school {
  invitations = record sent { status = accepted; responded_at = some 3000; version = 2 } ∷ [];
  matches = new_match_row ∷ [];
  conversations = record { id = 81; match_id = 71; semester_id = 5; created_at = 3000 } ∷ [];
  outbox =
      record {
        id = 91;
        event_type = codes "MATCHING_INVITATION_ACCEPTED";
        aggregate_id = 7;
        recipient_user_id = some 1;
        recipient_email = codes "a@x.vn";
        idempotency_key = codes "matching-invitation-accepted:00000000-0000-0000-0000-000000000007";
        payload =
            field (codes "invitation_id") (text (codes "00000000-0000-0000-0000-000000000007")) (
              field (codes "match_id") (text (codes "00000000-0000-0000-0000-000000000047")) (
                field (codes "conversation_id")
                  (text (codes "00000000-0000-0000-0000-000000000051")) end_fields));
        attempts = 0;
        next_attempt_at = 3000;
        lease_owner = none;
        lease_expires_at = none;
        sent_at = none;
        failed_at = none;
        provider_message_id = none;
        last_error_code = none;
        created_at = 3000;
        updated_at = 3000;
        deleted_at = none;
      }
      ∷ [];
}

acceptance_runs :
    accept_matching_invitation one_hour_ahead ascii keys 2 7 (aware 2000) (aware 3000) school
    ≡ ok (done, accepted_school)
unfolding accept_matching_invitation accept_observed accept_pending store_acceptance
    load_owned_invitation require_current_eligibility current_reference_week_start
    effective_invitation_status get_eligible_matching_principal get_profile_completion
    count_valid_interests catalog_keys normalize_preference_key normalize_preference_identity
    contains_unsafe_control collapse_whitespace is_space count_valid_languages
    derive_profile_completion missing_fields_of reasons_of count_distinct count_ready_avatars strip
    lock_buddy_match_participants lock_current_buddy_users available_users available_user
    matching_pair_is_eligible load_matching_pair_scoring_profiles project_safe_profiles
    score_eligible_pair accept transition save_invitation activate_buddy_match activate_locked
    activate_between active_pair_exists participants_of canonical_user_pair insert_match
    get_or_create_buddy_conversation insert_conversation enqueue_transactional_email insert_outbox
    outbox_row validate_identifier canonicalize_email is_valid_local_part is_valid_domain
    domain_labels is_domain_label validated_payload contains_sensitive_key is_sensitive_key
    is_json_safe uuid_text merged_utc_intervals availability_similarity ◌+f◌ times at_most
    fraction_eq fraction_le round_half_up normalized_custom_key preference_identities
    language_identities normalized_major major_similarity jaccard exact_overlap merge_from
    merge_sorted duration_microseconds intersection_microseconds signal_breakdown signal
    total_points compatibility_score require_eligible_safe_pair weighted_breakdown profile_breakdown
    slot_intervals local_minute
acceptance_runs = refl

accept_result_example :
    (i : MatchingInvitation) × (load_owned_invitation 7 2 school ≡ ok i)
    × (((status_is i.status accepted ≡ true) × Replayed i school accepted_school done)
        ⊎ Accepted one_hour_ahead ascii keys 2 i (aware 3000) school accepted_school done)
accept_result_example =
    accept_result one_hour_ahead ascii keys 2 7 (aware 2000) (aware 3000) school accepted_school
      done acceptance_runs

abbrev other_keys : NewKeys
other_keys = record { match_id = 72; conversation_id = 82; outbox_id = 92 }

accept_twice_example :
    accept_matching_invitation one_hour_ahead ascii other_keys 2 7
      (aware 900_000_000_000_000)
      (aware 900_000_000_000_000)
      accepted_school
    ≡ ok (done, accepted_school)
accept_twice_example =
    accept_twice one_hour_ahead ascii keys 2 7 (aware 2000) (aware 3000) school accepted_school done
      acceptance_runs other_keys (aware 900_000_000_000_000) (aware 900_000_000_000_000)

-- The invitation is pending, and the clock has passed its deadline.
accept_refused_example :
    accept_matching_invitation one_hour_ahead ascii keys 2 7
      (aware 900_000_000_000_000)
      (aware 900_000_000_000_001)
      school
    ≡ err accept_expired
unfolding load_owned_invitation
accept_refused_example =
    accept_refused one_hour_ahead ascii keys 2 7 sent 900_000_000_000_000
      (aware 900_000_000_000_001) school refl refl refl
