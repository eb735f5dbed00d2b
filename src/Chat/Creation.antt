-- ===== src/Chat/Creation.antt =====
-- The conversation of a match after `get_or_create_buddy_conversation`.
use buddy_web_ver.Base.{
  ℕ, ◌≡◌, refl, ◌∙◌, subst, ◌⊎◌, inl, inr, ◌&&◌, Option, none, some, List, ◌∷◌, ◌==◌, is_none, any,
  scalar, arith, Bool-cases,
}
use buddy_web_ver.Errors.{active_match_required, Result, ok, or_raise, or_raise_inv, Result-cases}
use buddy_web_ver.Time.{Datetime, utc_now}
use buddy_web_ver.Models.Match.{BuddyMatch, BuddyConversation}
use buddy_web_ver.Db.{Db, pure, lift, lift_then, read_then, bind-ok_inv, ◌>>=◌}
use buddy_web_ver.Db.Tables.{scalar_sound}
use buddy_web_ver.Chat.Conversations.{
  of_match, insert_conversation, or_existing, get_or_create_buddy_conversation,
}

conversation_inserted :
    (c : BuddyConversation) (o : Option BuddyConversation) (db db' : Db)
    → insert_conversation c db ≡ ok (o, db')
    → ((o ≡ none) × (db' ≡ db))
      ⊎ ((o ≡ some c) × (db' ≡ record db { conversations = c ∷ db.conversations }))
unfolding insert_conversation
conversation_inserted c o db db' h =
    elim (Bool-cases (any (of_match c.match_id) db.conversations)) [
      | inl e ↦ let left = rw e at h in inl (cc, cc)
      | inr e ↦ elim (Bool-cases (any (λ other. other.id == c.id) db.conversations)) [
        | inl e' ↦ let wrong = rw (e, e') at h in cc
        | inr e' ↦ let left = rw (e, e') at h in inr (cc, cc)
      ]
    ]

existing :
    (match_id : ℕ) (db db' : Db) (c : BuddyConversation)
    → or_existing match_id none db ≡ ok (c, db')
    → (scalar (of_match match_id) db'.conversations ≡ some c) × (db' ≡ db)
existing match_id db db' c h =
    elim (Result-cases
      (or_raise (scalar (of_match match_id) db.conversations) active_match_required)) [
        | inl (x, e) ↦
            let left = rw e at h in
            let same : db' ≡ db = cc in
            (
              rw same (
                  or_raise_inv (scalar (of_match match_id) db.conversations) active_match_required c
                    (ground (arith, e))),
              same,
            )
        | inr (x, e) ↦ let wrong = rw e at h in cc
      ]

match_key :
    (match_id : ℕ) (m : BuddyMatch) (ms : List BuddyMatch)
    → scalar (λ m. m.id == match_id && is_none m.deleted_at) ms ≡ some m
    → m.id ≡ match_id
match_key match_id m ms found =
    ground (arith, scalar_sound (λ m. m.id == match_id && is_none m.deleted_at) m ms found)

new_found :
    (match_id : ℕ) (made c : BuddyConversation) (db db₁ db' : Db)
    → made.match_id ≡ match_id
    → db₁ ≡ record db { conversations = made ∷ db.conversations }
    → pure made db₁ ≡ ok (c, db')
    → (scalar (of_match match_id) db'.conversations ≡ some c)
      × (db' ≡ record db { conversations = db'.conversations })
new_found match_id made c db db₁ db' key wrote h =
    let same : db' ≡ record db { conversations = made ∷ db.conversations } = cc in
    let is_c : made ≡ c = cc in (rw same (ground (arith, is_c)), rw same refl)

-- The conversation is the match's one afterwards, and nothing but conversations is written.
pub conversation_found :
    (new_id match_id : ℕ) (clock : Datetime) (db db' : Db) (c : BuddyConversation)
    → get_or_create_buddy_conversation new_id match_id clock db ≡ ok (c, db')
    → (scalar (of_match match_id) db'.conversations ≡ some c)
      × (db' ≡ record db { conversations = db'.conversations })
unfolding get_or_create_buddy_conversation
conversation_found new_id match_id clock db db' c h =
    let find : Db → Result BuddyMatch = λ db.
      or_raise (scalar (λ m. m.id == match_id && is_none m.deleted_at) db.matches)
        active_match_required in
    let row : BuddyMatch → ℕ → BuddyConversation = λ m at. record {
      id = new_id;
      match_id = m.id;
      semester_id = m.semester_id;
      created_at = at;
    } in
    let (m, is_m, h1) =
      read_then find
        (λ m. lift (utc_now clock) >>= λ at. insert_conversation (row m at) >>= or_existing m.id) db
        db' c h in
    let (at, _, h2) =
      lift_then (utc_now clock) (λ at. insert_conversation (row m at) >>= or_existing m.id) db db' c
        h1 in
    let (o, db₁, is_o, h3) =
      bind-ok_inv (insert_conversation (row m at)) (or_existing m.id) db db' c h2 in
    let key : m.id ≡ match_id = match_key match_id m db.matches (
      or_raise_inv (scalar (λ m. m.id == match_id && is_none m.deleted_at) db.matches)
        active_match_required m is_m) in
    elim (conversation_inserted (row m at) o db db₁ is_o) [
      | inl (is_none_, same) ↦
          let (found, same') = existing m.id db₁ db' c (
            subst (λ (o : Option BuddyConversation). or_existing m.id o db₁ ≡ ok (c, db')) is_none_
              h3) in
          (
            subst (λ (k : ℕ). scalar (of_match k) db'.conversations ≡ some c) key found,
            let both : db' ≡ db = same' ∙ same in rw both refl,
          )
      | inr (is_some_, wrote) ↦ new_found match_id (row m at) c db db₁ db' key wrote (
          subst (λ (o : Option BuddyConversation). or_existing m.id o db₁ ≡ ok (c, db')) is_some_
            h3)
    ]
