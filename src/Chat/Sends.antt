-- ===== src/Chat/Sends.antt =====
-- What a send leaves, and that it can be repeated.
use buddy_web_ver.Base.{
  ℕ, ◌+◌, ◌<◌, ◌≡◌, refl, ◌⊎◌, inl, inr, false, Option, none, some, ◌∷◌, ◌==◌, arith, scalar, any,
  Bool-cases, text_eq→eq,
}
use buddy_web_ver.Errors.{Result, ok}
use buddy_web_ver.Text.{Text}
use buddy_web_ver.Models.Chat.{BuddyMessage, buddy_message_expires_at, buddy_message_max_retention}
use buddy_web_ver.Db.{Db, bind-ok_inv}
use buddy_web_ver.Chat.Messages.{
  has_key, insert_message_once, new_message, is_replay, replay, inserted_or_replay, send_authorized,
}

-- A send that succeeded: the message was stored before, or it is new, with a new key.
pub record Sent (new_id conversation_id sender_id client_message_id : ℕ) (body : Text) (now : ℕ)
    (db db' : Db) (m : BuddyMessage) : Type 0 where
  pub in_conversation : m.conversation_id ≡ conversation_id
  pub has_body : m.body ≡ body
  pub found : scalar (has_key sender_id client_message_id) db'.messages ≡ some m
  pub stored :
      ((db' ≡ db) × (now < m.expires_at))
      ⊎ ((m
            ≡ new_message new_id conversation_id sender_id client_message_id body now
                (now + buddy_message_max_retention))
          × (any (has_key sender_id client_message_id) db.messages ≡ false)
          × (any (λ other. other.id == new_id) db.messages ≡ false)
          × (db' ≡ record db { messages = m ∷ db.messages }))

module _ (new_id conversation_id sender_id client_message_id : ℕ) (body : Text) (now : ℕ)
    (db db' : Db) (m : BuddyMessage) where
  abbrev made : BuddyMessage
  made =
      new_message new_id conversation_id sender_id client_message_id body now
        (now + buddy_message_max_retention)

  replayed :
      (o : Option BuddyMessage)
      → scalar (has_key sender_id client_message_id) db.messages ≡ o
      → replay conversation_id body now o db ≡ ok (m, db')
      → Sent new_id conversation_id sender_id client_message_id body now db db' m
  replayed none f h = cc
  replayed (some e) f h = elim (Bool-cases (is_replay conversation_id body now e)) [
    | inl same ↦
        let kept : ◌≡◌ {A = Result (BuddyMessage × Db)} (ok (e, db)) (ok (m, db')) = rw same at h in
        let is_m : m ≡ e = ground arith in
        let unchanged : db' ≡ db = ground arith in
        rw (unchanged, is_m)
          (record {
            in_conversation = ground arith;
            has_body = text_eq→eq e.body body (ground arith);
            found = f;
            stored = inl (refl, ground arith);
          })
    | inr other ↦ let wrong = rw other at h in cc
  ]

  inserted :
      (o : Option BuddyMessage) (db₁ : Db)
      → insert_message_once made db ≡ ok (o, db₁)
      → ((o ≡ none) × (db₁ ≡ db))
        ⊎ ((o ≡ some made)
            × (any (has_key sender_id client_message_id) db.messages ≡ false)
            × (any (λ other. other.id == new_id) db.messages ≡ false)
            × (db₁ ≡ record db { messages = made ∷ db.messages }))
  unfolding insert_message_once
  inserted o db₁ h = elim (Bool-cases (any (has_key sender_id client_message_id) db.messages)) [
    | inl known ↦ let kept = rw known at h in inl (ground arith, ground arith)
    | inr unknown ↦ elim (Bool-cases (any (λ other. other.id == new_id) db.messages)) [
      | inl taken ↦ let wrong = rw (unknown, taken) at h in ground arith
      | inr free ↦
          let new = rw (unknown, free) at h in inr (ground arith, unknown, free, ground arith)
    ]
  ]

  concluded :
      (o : Option BuddyMessage) (db₁ : Db)
      → insert_message_once made db ≡ ok (o, db₁)
      → inserted_or_replay conversation_id sender_id client_message_id body now o db₁ ≡ ok (m, db')
      → Sent new_id conversation_id sender_id client_message_id body now db db' m
  concluded o db₁ h k = elim (inserted o db₁ h) [
    | inl (is_none, same) ↦
        replayed (scalar (has_key sender_id client_message_id) db.messages) refl
          (rw (is_none, same) at k)
    | inr (is_made, unknown, free, wrote) ↦
        let new : ◌≡◌ {A = Result (BuddyMessage × Db)} (ok (made, db₁)) (ok (m, db')) =
          rw is_made at k in
        let is_m : m ≡ made = ground arith in
        let after : db' ≡ record db { messages = made ∷ db.messages } = ground arith in
        rw (after, is_m)
          (record {
            in_conversation = refl;
            has_body = refl;
            found = ground arith;
            stored = inr (refl, unknown, free, refl);
          })
  ]

  pub authorized-Sent :
      send_authorized new_id conversation_id sender_id client_message_id body now db ≡ ok (m, db')
      → Sent new_id conversation_id sender_id client_message_id body now db db' m
  unfolding send_authorized buddy_message_expires_at
  authorized-Sent h =
      let (o, db₁, wrote, k) =
        bind-ok_inv (insert_message_once made)
          (inserted_or_replay conversation_id sender_id client_message_id body now) db db' m h in
      concluded o db₁ wrote k
