-- ===== src/Chat/Replays.antt =====
-- Guarantees of a send that succeeds.
use buddy_web_ver.Base.{
  ℕ, ◌+◌, ◌<◌, ◌≡◌, refl, ◌∙◌, ap, ◌⊎◌, inl, inr, Bool, true, false, none, some, List, [], ◌∷◌,
  ◌==◌, arith, scalar, any, All, text_eq_refl,
}
use buddy_web_ver.Errors.{Result, ok, err}
use buddy_web_ver.Time.{Datetime, aware, utc_now}
use buddy_web_ver.Text.{Text}
use buddy_web_ver.Models.Match.{BuddyConversation}
use buddy_web_ver.Models.Chat.{
  BuddyMessage, buddy_message_expires_at, buddy_message_max_retention, validate_buddy_message_body,
  retention_timestamps,
}
use buddy_web_ver.Db.{
  Db, Session, lift, read, map_error, lift_then, bind-ok, bind-ok_inv, ◌>>=◌, ◌>>◌,
}
use buddy_web_ver.Chat.Conversations.{require_authorized_active_conversation}
use buddy_web_ver.Chat.Messages.{
  has_key, insert_message_once, new_message, required_if_unreadable, is_replay, inserted_or_replay,
  send_authorized, send_buddy_message,
}
use buddy_web_ver.Chat.Sends.{Sent, authorized-Sent}

-- The checks before a message is stored.
pub record Allowed (conversation_id sender_id : ℕ) (body : Text) (db : Db) : Type 0 where
  pub conversation : BuddyConversation
  pub valid_body : validate_buddy_message_body body ≡ ok body
  pub authorized :
      require_authorized_active_conversation conversation_id sender_id db ≡ ok conversation

valid_same : (body v : Text) → validate_buddy_message_body body ≡ ok v → v ≡ body
unfolding validate_buddy_message_body
valid_same body v h = ground arith

authorized_left :
    (r : Result BuddyConversation) (db db₁ : Db) (c : BuddyConversation)
    → map_error required_if_unreadable (lift r) db ≡ ok (c, db₁)
    → (r ≡ ok c) × (db₁ ≡ db)
authorized_left (ok a) db db₁ c h = ground arith
authorized_left (err e) db db₁ c h = ground arith

module _ (new_id conversation_id sender_id client_message_id : ℕ) (body : Text) (clock : Datetime)
    (db db' : Db) (m : BuddyMessage)
    (h : send_buddy_message new_id conversation_id sender_id client_message_id body clock db
      ≡ ok (m, db')) where
  pub send_result :
      (now : ℕ) × (utc_now clock ≡ ok now)
      × Allowed conversation_id sender_id body db
      × Sent new_id conversation_id sender_id client_message_id body now db db' m
  unfolding send_buddy_message
  send_result =
      let store : Text → ℕ → Session BuddyMessage =
        send_authorized new_id conversation_id sender_id client_message_id in
      let check : Session BuddyConversation =
        map_error required_if_unreadable
          (read (require_authorized_active_conversation conversation_id sender_id)) in
      let (v, is_v, h1) =
        lift_then (validate_buddy_message_body body)
          (λ v. check >> (lift (utc_now clock) >>= store v)) db db' m h in
      let (c, db₁, checked, h2) =
        bind-ok_inv check (λ _. lift (utc_now clock) >>= store v) db db' m h1 in
      let (now, is_now, h3) = lift_then (utc_now clock) (store v) db₁ db' m h2 in
      let (opened, same) =
        authorized_left (require_authorized_active_conversation conversation_id sender_id db) db db₁
          c checked in
      let same_body = valid_same body v is_v in
      (
        now,
        is_now,
        record { conversation = c; valid_body = is_v ∙ ap ok same_body; authorized = opened },
        authorized-Sent new_id conversation_id sender_id client_message_id body now db db' m
            (rw (same, same_body) at h3),
      )

any_found :
    (p : BuddyMessage → Bool) (m : BuddyMessage) (ms : List BuddyMessage)
    → scalar p ms ≡ some m
    → any p ms ≡ true
any_found p m [] h = ground arith
any_found p m (x ∷ xs) h = ground (arith, any_found p m xs)

module _ (new_id conversation_id sender_id client_message_id : ℕ) (body : Text) (now : ℕ) (db : Db)
    (m : BuddyMessage) (found : scalar (has_key sender_id client_message_id) db.messages ≡ some m)
    (in_conversation : m.conversation_id ≡ conversation_id) (has_body : m.body ≡ body)
    (alive : now < m.expires_at) where
  replays : is_replay conversation_id body now m ≡ true
  replays = rw (in_conversation, has_body) (ground (arith, text_eq_refl body))

  abbrev again : BuddyMessage
  again =
      new_message new_id conversation_id sender_id client_message_id body now
        (now + buddy_message_max_retention)

  skipped : insert_message_once again db ≡ ok (none, db)
  unfolding insert_message_once
  skipped = rw (any_found (has_key sender_id client_message_id) m db.messages found) refl

  handed_back :
      inserted_or_replay conversation_id sender_id client_message_id body now none db ≡ ok (m, db)
  handed_back = rw (found, replays) refl

  replay_authorized :
      send_authorized new_id conversation_id sender_id client_message_id body now db ≡ ok (m, db)
  unfolding send_authorized buddy_message_expires_at
  replay_authorized =
      bind-ok (insert_message_once again)
        (inserted_or_replay conversation_id sender_id client_message_id body now) db db none skipped
      ∙ handed_back

replay-Allowed :
    (new_id conversation_id sender_id client_message_id : ℕ) (body : Text) (now : ℕ) (db : Db)
    (m : BuddyMessage)
    → Allowed conversation_id sender_id body db
    → send_authorized new_id conversation_id sender_id client_message_id body now db ≡ ok (m, db)
    → send_buddy_message new_id conversation_id sender_id client_message_id body (aware now) db
      ≡ ok (m, db)
unfolding send_buddy_message
replay-Allowed new_id conversation_id sender_id client_message_id body now db m a h =
    let store : ℕ → Session BuddyMessage =
      send_authorized new_id conversation_id sender_id client_message_id body in
    let check : Session BuddyConversation =
      map_error required_if_unreadable
        (read (require_authorized_active_conversation conversation_id sender_id)) in
    let passed : check db ≡ ok (a.conversation, db) = rw (a.authorized, map_error) refl in
    bind-ok (lift (validate_buddy_message_body body))
      (λ v.
        check
        >> (lift (utc_now (aware now))
            >>= send_authorized new_id conversation_id sender_id client_message_id v))
      db db body (rw a.valid_body refl)
    ∙ bind-ok check (λ _. lift (utc_now (aware now)) >>= store) db db a.conversation passed
    ∙ h

-- The authorization does not depend on messages.
Allowed-after :
    (conversation_id sender_id : ℕ) (body : Text) (db : Db) (messages : List BuddyMessage)
    → Allowed conversation_id sender_id body db
    → Allowed conversation_id sender_id body (record db { messages = messages })
unfolding require_authorized_active_conversation
Allowed-after conversation_id sender_id body db messages a = record {
  conversation = a.conversation;
  valid_body = a.valid_body;
  authorized = a.authorized;
}

-- No two messages have one key, or one sender and client key.
abbrev pub OneMessageEach : List BuddyMessage → Type 0
OneMessageEach [] = Unit
OneMessageEach (m ∷ ms) =
    (any (λ other. other.id == m.id) ms ≡ false)
    × (any (has_key m.sender_id m.client_message_id) ms ≡ false)
    × OneMessageEach ms

-- The messages meet the unique keys and the retention constraint of their table.
pub record MessagesStored (ms : List BuddyMessage) : Type 0 where
  pub one_each : OneMessageEach ms
  pub retained : All (λ (m : BuddyMessage). retention_timestamps m ≡ true) ms

new_stored :
    (m : BuddyMessage) (ms : List BuddyMessage)
    → any (λ other. other.id == m.id) ms ≡ false
    → any (has_key m.sender_id m.client_message_id) ms ≡ false
    → retention_timestamps m ≡ true
    → MessagesStored ms
    → MessagesStored (m ∷ ms)
new_stored m ms free unknown kept s = record {
  one_each = (free, unknown, s.one_each);
  retained = (kept, s.retained);
}

module _ (new_id conversation_id sender_id client_message_id : ℕ) (body : Text) (clock : Datetime)
    (db db' : Db) (m : BuddyMessage)
    (h : send_buddy_message new_id conversation_id sender_id client_message_id body clock db
      ≡ ok (m, db')) where
  -- A send that succeeded can be repeated under its client key, at any time before the message
  -- expires and with whatever key would have been given to a new row: it returns the message of the
  -- first attempt and changes nothing.
  pub send_twice :
      (new_id' now' : ℕ)
      → now' < m.expires_at
      → send_buddy_message new_id' conversation_id sender_id client_message_id body (aware now') db'
        ≡ ok (m, db')
  send_twice new_id' now' alive =
      let (now, is_now, allowed, sent) =
        send_result new_id conversation_id sender_id client_message_id body clock db db' m h in
      let allowed' : Allowed conversation_id sender_id body db' = elim sent.stored [
        | inl (same, _) ↦ rw same allowed
        | inr (_, _, _, wrote) ↦
            rw wrote (Allowed-after conversation_id sender_id body db (m ∷ db.messages) allowed)
      ] in
      replay-Allowed new_id' conversation_id sender_id client_message_id body now' db' m allowed' (
        replay_authorized new_id' conversation_id sender_id client_message_id body now' db' m
          sent.found sent.in_conversation sent.has_body alive)

  -- A send that succeeds keeps the unique keys and the retention constraint of the messages, and
  -- writes nothing but messages; it adds one message at most.
  pub send-MessagesStored :
      MessagesStored db.messages
      → MessagesStored db'.messages
        × ((db' ≡ db) ⊎ (db' ≡ record db { messages = m ∷ db.messages }))
  send-MessagesStored s =
      let (now, is_now, allowed, sent) =
        send_result new_id conversation_id sender_id client_message_id body clock db db' m h in
      elim sent.stored [
        | inl (same, _) ↦ (rw same s, inl same)
        | inr (is_m, unknown, free, wrote) ↦
            let key : m.id ≡ new_id = ap (λ (x : BuddyMessage). x.id) is_m in
            let from : m.sender_id ≡ sender_id = ap (λ (x : BuddyMessage). x.sender_id) is_m in
            let under : m.client_message_id ≡ client_message_id =
              ap (λ (x : BuddyMessage). x.client_message_id) is_m in
            let kept : retention_timestamps m ≡ true = rw is_m (ground arith) in
            (
              rw wrote (new_stored m db.messages (rw key free) (rw (from, under) unknown) kept s),
              inr wrote,
            )
      ]
