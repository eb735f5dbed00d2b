-- ===== src/Invitations/Acceptance/Stored.antt =====
-- What an acceptance writes (`accept_matching_invitation` from the transition on).
use buddy_web_ver.Base.{
  ℕ, ◌+◌, ◌<◌, ◌≡◌, refl, ◌∙◌, ap, subst, true, false, ◌&&◌, none, some, List, ◌∷◌, ◌==◌, is_none,
  any, scalar, arith,
}
use buddy_web_ver.Errors.{pending, accepted, ok}
use buddy_web_ver.Time.{aware}
use buddy_web_ver.Models.Match.{BuddyMatch, BuddyConversation}
use buddy_web_ver.Models.Invitation.{MatchingInvitation, accept, status_is}
use buddy_web_ver.Models.Outbox.{TransactionalOutbox}
use buddy_web_ver.Db.{
  Db, Session, pure, map_error, match_clashes, save_invitation, lift_then, bind-ok_inv,
  map_error_ok, ◌>>=◌, ◌>>◌,
}
use buddy_web_ver.Db.Tables.{put, scalar_sound}
use buddy_web_ver.Outbox.Event.{outbox_row}
use buddy_web_ver.Outbox.Enqueue.{enqueue_transactional_email}
use buddy_web_ver.Matches.Participants.{LockedBuddyParticipants}
use buddy_web_ver.Matches.Activation.{activate_buddy_match}
use buddy_web_ver.Matches.Pairs.{activation_result}
use buddy_web_ver.Chat.Conversations.{of_match, get_or_create_buddy_conversation}
use buddy_web_ver.Invitations.Sending.Effects.{enqueued}
use buddy_web_ver.Invitations.Acceptance.{
  InvitationAcceptanceResult, NewKeys, receipt, accepted_event, map_activation_error,
  store_acceptance,
}
use buddy_web_ver.Chat.Creation.{conversation_found}

-- A transition to ACCEPTED that is allowed.
accepts :
    (at : ℕ) (i j : MatchingInvitation)
    → accept (aware at) i ≡ ok j
    → (j ≡ record i { status = accepted; responded_at = some at })
      × (status_is i.status pending ≡ true)
      × (at < i.expires_at)
unfolding accept
accepts at i j h = (ground arith, ground arith, ground arith)

-- The accepted row as it is saved.
abbrev pub saved_as : MatchingInvitation → ℕ → MatchingInvitation
saved_as i at = record i { status = accepted; responded_at = some at; version = i.version + 1 }

-- The writes of an acceptance: the answered row, its match, the match's conversation, the event.
pub record Stored (keys : NewKeys) (i : MatchingInvitation) (p : LockedBuddyParticipants)
    (score at : ℕ) (db db' : Db) (r : InvitationAcceptanceResult) : Type 0 where
  pub buddy_match : BuddyMatch
  pub conversation : BuddyConversation
  pub event : TransactionalOutbox
  pub pending_before : status_is i.status pending ≡ true
  pub in_time : at < i.expires_at
  pub is_receipt : r ≡ receipt i.id buddy_match conversation
  pub of_invitation : buddy_match.accepted_invitation_id ≡ i.id
  pub is_live : buddy_match.deleted_at ≡ none
  pub keeps_score : buddy_match.score ≡ score
  pub no_match_yet : any (match_clashes buddy_match) db.matches ≡ false
  pub its_conversation : scalar (of_match buddy_match.id) db'.conversations ≡ some conversation
  pub is_event :
      outbox_row keys.outbox_id
        (accepted_event i.id p.sender_user buddy_match conversation)
        (aware at)
      ≡ ok event
  pub wrote : db' ≡ record db {
    invitations = put (saved_as i at) db.invitations;
    matches = buddy_match ∷ db.matches;
    conversations = db'.conversations;
    outbox = event ∷ db.outbox;
  }

saved :
    (i : MatchingInvitation) (db db' : Db)
    → save_invitation i db ≡ ok (tt, db')
    → db' ≡ record db { invitations = put (record i { version = i.version + 1 }) db.invitations }
unfolding save_invitation
saved i db db' h = ground arith

live_key :
    (k : ℕ) (i : MatchingInvitation) (is : List MatchingInvitation)
    → scalar (λ i. i.id == k && is_none i.deleted_at) is ≡ some i
    → i.id ≡ k
live_key k i is found =
    ground (arith, scalar_sound (λ i. i.id == k && is_none i.deleted_at) i is found)

module _ (keys : NewKeys) (i : MatchingInvitation) (p : LockedBuddyParticipants) (score at : ℕ)
    (j : MatchingInvitation) (m : BuddyMatch) (c : BuddyConversation) (row : TransactionalOutbox)
    (db db₁ db₂ db₃ db₄ db' : Db) (r : InvitationAcceptanceResult) where
  writes :
      j ≡ record i { status = accepted; responded_at = some at }
      → db₁ ≡ record db { invitations = put (record j { version = j.version + 1 }) db.invitations }
      → db₂ ≡ record db₁ { matches = m ∷ db₁.matches }
      → db₃ ≡ record db₂ { conversations = db₃.conversations }
      → db₄ ≡ record db₃ { outbox = row ∷ db₃.outbox }
      → db' ≡ db₄
      → db' ≡ record db {
        invitations = put (saved_as i at) db.invitations;
        matches = m ∷ db.matches;
        conversations = db₃.conversations;
        outbox = row ∷ db.outbox;
      }
  writes is_j w₁ w₂ w₃ w₄ same =
      let talks = db₃.conversations in
      let first : db₁ ≡ record db { invitations = put (saved_as i at) db.invitations } =
        w₁
        ∙ ap
            (λ (j : MatchingInvitation). record db {
              invitations = put (record j { version = j.version + 1 }) db.invitations;
            })
            is_j in
      let second = w₂ ∙ ap (λ (d : Db). record d { matches = m ∷ d.matches }) first in
      let third = w₃ ∙ ap (λ (d : Db). record d { conversations = talks }) second in
      same ∙ w₄ ∙ ap (λ (d : Db). record d { outbox = row ∷ d.outbox }) third

  assemble :
      j ≡ record i { status = accepted; responded_at = some at }
      → status_is i.status pending ≡ true
      → at < i.expires_at
      → db₁ ≡ record db { invitations = put (record j { version = j.version + 1 }) db.invitations }
      → m.accepted_invitation_id ≡ j.id
      → m.deleted_at ≡ none
      → m.score ≡ score
      → any (match_clashes m) db₁.matches ≡ false
      → db₂ ≡ record db₁ { matches = m ∷ db₁.matches }
      → scalar (of_match m.id) db₃.conversations ≡ some c
      → db₃ ≡ record db₂ { conversations = db₃.conversations }
      → outbox_row keys.outbox_id (accepted_event j.id p.sender_user m c) (aware at) ≡ ok row
      → db₄ ≡ record db₃ { outbox = row ∷ db₃.outbox }
      → pure (receipt j.id m c) db₄ ≡ ok (r, db')
      → Stored keys i p score at db db' r
  assemble is_j pending_ in_time_ w₁ of live keeps fresh w₂ found w₃ is_row w₄ last =
      let same_id : j.id ≡ i.id = ap (λ (j : MatchingInvitation). j.id) is_j in
      let same : db' ≡ db₄ = cc in
      let is_r : r ≡ receipt j.id m c = cc in
      let full = writes is_j w₁ w₂ w₃ w₄ same in
      record {
        buddy_match = m;
        conversation = c;
        event = row;
        pending_before = pending_;
        in_time = in_time_;
        is_receipt = is_r ∙ ap (λ (k : ℕ). receipt k m c) same_id;
        of_invitation = of ∙ same_id;
        is_live = live;
        keeps_score = keeps;
        no_match_yet = subst (λ (d : Db). any (match_clashes m) d.matches ≡ false) w₁ fresh;
        its_conversation = rw full found;
        is_event =
            subst
              (λ (k : ℕ).
                outbox_row keys.outbox_id (accepted_event k p.sender_user m c) (aware at) ≡ ok row)
              same_id is_row;
        wrote = rw full refl;
      }

pub store-Stored :
    (keys : NewKeys) (i : MatchingInvitation) (p : LockedBuddyParticipants) (score at : ℕ)
    (db db' : Db) (r : InvitationAcceptanceResult)
    → store_acceptance keys i p score at db ≡ ok (r, db')
    → Stored keys i p score at db db' r
unfolding store_acceptance
store-Stored keys i p score at db db' r h =
    let activate : MatchingInvitation → Session BuddyMatch = λ j.
      map_error map_activation_error
        (activate_buddy_match keys.match_id j.id score (some p) (aware at)) in
    let talk : BuddyMatch → Session BuddyConversation =
      λ m. get_or_create_buddy_conversation keys.conversation_id m.id (aware at) in
    let queue : MatchingInvitation → BuddyMatch → BuddyConversation → Session TransactionalOutbox =
      λ j m c.
        enqueue_transactional_email keys.outbox_id (accepted_event j.id p.sender_user m c)
          (aware at) in
    let end : MatchingInvitation
        → BuddyMatch
        → BuddyConversation
        → Session InvitationAcceptanceResult =
      λ j m c. queue j m c >> pure (receipt j.id m c) in
    let (j, is_j, h1) =
      lift_then (accept (aware at) i)
        (λ j. save_invitation j >> (activate j >>= λ m. talk m >>= λ c. end j m c)) db db' r h in
    let (_, db₁, is_saved, h2) =
      bind-ok_inv (save_invitation j) (λ _. activate j >>= λ m. talk m >>= λ c. end j m c) db db' r
        h1 in
    let (m, db₂, activated, h3) =
      bind-ok_inv (activate j) (λ m. talk m >>= λ c. end j m c) db₁ db' r h2 in
    let (c, db₃, talks, h4) = bind-ok_inv (talk m) (λ c. end j m c) db₂ db' r h3 in
    let (row, db₄, queued, h5) =
      bind-ok_inv (queue j m c) (λ _. pure (receipt j.id m c)) db₃ db' r h4 in
    let (live_row, _, live, _, _, _, made) =
      activation_result keys.match_id j.id score (some p) (aware at) db₁ db₂ m (
        map_error_ok map_activation_error
          (activate_buddy_match keys.match_id j.id score (some p) (aware at)) db₁ db₂ m
          activated) in
    let (found, left) = conversation_found keys.conversation_id m.id (aware at) db₂ db₃ c talks in
    let (is_row, left') =
      enqueued keys.outbox_id (accepted_event j.id p.sender_user m c) (aware at) db₃ db₄ row
        queued in
    let (answered, pending_, in_time_) = accepts at i j is_j in
    let written : db₂ ≡ record db₁ { matches = m ∷ db₁.matches } = made.wrote in
    let of : m.accepted_invitation_id ≡ j.id =
      made.of_invitation ∙ live_key j.id live_row db₁.invitations live in
    assemble keys i p score at j m c row db db₁ db₂ db₃ db₄ db' r answered pending_ in_time_
      (saved j db db₁ is_saved) of made.is_live made.keeps_score made.no_match_yet written found
      left is_row left' h5
