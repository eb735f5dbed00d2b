-- ===== src/Chat/Pages.antt =====
-- The pages of a conversation follow one another.
use buddy_web_ver.Base.{
  ℕ, ◌+◌, ◌≤◌, ◌<◌, ◌≡◌, refl, ◌∙◌, ap, sym, subst, ◌⊎◌, inl, inr, Bool, true, false, not, ◌&&◌,
  Option, none, some, List, [], ◌∷◌, ◌++◌, ltb, leb, arith, length, take, select, All, sort_by,
  All-sort_by, Bool-cases, length-take, take_all,
}
use buddy_web_ver.Errors.{value_error, Complaint, ok, raise_if, ok_inv}
use buddy_web_ver.Chat.Conversations.{require_authorized_active_conversation}
use buddy_web_ver.Time.{Datetime, utc_now}
use buddy_web_ver.Text.{Text}
use buddy_web_ver.Models.Chat.{BuddyMessage}
use buddy_web_ver.Db.{Db}
use buddy_web_ver.Base64.{byte_range}
use buddy_web_ver.Chat.Cursor.{
  max_datetime, encode_buddy_message_cursor, decode_buddy_message_cursor, decode-encode_cursor,
}
use buddy_web_ver.Chat.History.{
  max_chat_message_page_size, BuddyMessagePage, is_effective, is_older, is_before, newer,
  newest_first, reversed, last, page_of, decode_before, list_buddy_messages,
}
use buddy_web_ver.Chat.Order.{
  DistinctKeys, IsSorted, select-DistinctKeys, sort-IsSorted, select-sort, cut_older, last_holds,
  All-select,
}
-- A timestamp that `datetime` can hold and a key of 128 bits.
use buddy_web_ver.Chat.Cuts.{
  take-take, take-last, reversed-reversed, length-reversed_onto, select-select,
}

abbrev pub InRange : BuddyMessage → Type 0
InRange m = (m.created_at ≤ max_datetime) × (m.id < byte_range 16)

before_both :
    (position : Option (ℕ × ℕ)) (m x : BuddyMessage)
    → is_before position m ≡ true
    → (is_before position x && is_older (m.created_at, m.id) x) ≡ is_older (m.created_at, m.id) x
before_both none m x h = refl
before_both (some (t, k)) m x h = ground arith

select-All :
    (p : BuddyMessage → Bool) (ms : List BuddyMessage)
    → All (λ (m : BuddyMessage). p m ≡ true) (select p ms)
select-All p [] = tt
select-All p (m ∷ ms) = elim (Bool-cases (p m)) [
  | inl e ↦ rw e (e, select-All p ms)
  | inr e ↦ rw e (select-All p ms)
]

module _ (conversation_id now : ℕ) (position : Option (ℕ × ℕ)) (messages : List BuddyMessage)
    (distinct : DistinctKeys messages) where
  rows-IsSorted : IsSorted (newest_first conversation_id now position messages)
  unfolding newest_first
  rows-IsSorted = sort-IsSorted _ (select-DistinctKeys _ messages distinct)

  -- The rows after a row are the rows of the statement with that row's position.
  rows_older :
      (m : BuddyMessage)
      → is_before position m ≡ true
      → select (is_older (m.created_at, m.id)) (newest_first conversation_id now position messages)
        ≡ newest_first conversation_id now (some (m.created_at, m.id)) messages
  unfolding newest_first
  rows_older m h =
      select-sort (is_older (m.created_at, m.id)) _ (select-DistinctKeys _ messages distinct)
      ∙ ap (sort_by newer) (
          select-select (λ x. is_effective conversation_id now x && is_before position x)
            (is_older (m.created_at, m.id))
            (λ x. is_effective conversation_id now x && is_older (m.created_at, m.id) x) messages
            (λ x. within (is_effective conversation_id now x) x (before_both position m x h)))
    where
      within :
          (b : Bool) (x : BuddyMessage)
          → (is_before position x && is_older (m.created_at, m.id) x)
            ≡ is_older (m.created_at, m.id) x
          → ((b && is_before position x) && is_older (m.created_at, m.id) x)
            ≡ (b && is_older (m.created_at, m.id) x)
      within true x e = e
      within false x e = refl

  -- A row of the statement meets its conditions, and what holds of all messages.
  row_before :
      (n : ℕ) (m : BuddyMessage)
      → last (take n (newest_first conversation_id now position messages)) ≡ some m
      → is_before position m ≡ true
  unfolding newest_first
  row_before n m e =
      last_holds (λ (x : BuddyMessage). is_before position x ≡ true) n m _
        (All-sort_by _ newer _ (before_all messages)) e
    where
      before_all :
          (ms : List BuddyMessage)
          → All
              (λ (x : BuddyMessage). is_before position x ≡ true)
              (select (λ x. is_effective conversation_id now x && is_before position x) ms)
      before_all [] = tt
      before_all (x ∷ xs) =
          elim (Bool-cases (is_effective conversation_id now x && is_before position x)) [
            | inl e ↦ rw e (ground arith, before_all xs)
            | inr e ↦ rw e (before_all xs)
          ]

  row_holds {κ} :
      (P : BuddyMessage → Type κ) (n : ℕ) (m : BuddyMessage)
      → All P messages
      → last (take n (newest_first conversation_id now position messages)) ≡ some m
      → P m
  unfolding newest_first
  row_holds P n m h e = last_holds P n m _ (All-sort_by P newer _ (All-select P _ messages h)) e

-- A page and the rows after it: it ends the history, or its cursor is the position from which the
-- statement goes on.
abbrev pub Follows : ℕ → ℕ → Option (ℕ × ℕ) → List BuddyMessage → BuddyMessagePage → Type 0
Follows conversation_id now position messages page =
    ((page.next_before ≡ none)
      × (reversed page.items ≡ newest_first conversation_id now position messages))
    ⊎ ((cursor : Text) × (next : ℕ × ℕ) × (page.next_before ≡ some cursor)
        × (decode_buddy_message_cursor cursor ≡ ok next)
        × (reversed page.items ++ newest_first conversation_id now (some next) messages
            ≡ newest_first conversation_id now position messages))

module _ (conversation_id now n : ℕ) (position : Option (ℕ × ℕ)) (messages : List BuddyMessage)
    (distinct : DistinctKeys messages) (in_range : All InRange messages) (some_rows : 0 < n) where
  last_page :
      let rows = newest_first conversation_id now position messages in
      ltb n (length rows) ≡ false → Follows conversation_id now position messages (page_of n rows)
  unfolding page_of
  last_page h =
      let rows = newest_first conversation_id now position messages in
      inl (rw h refl, reversed-reversed (take n rows) ∙ take_all n rows (ground arith))

  inner_page :
      let rows = newest_first conversation_id now position messages in
      ltb n (length rows) ≡ true → Follows conversation_id now position messages (page_of n rows)
  unfolding page_of
  inner_page h =
      let rows = newest_first conversation_id now position messages in
      let (m, is_last) = take-last n rows some_rows (ground arith) in
      let (in_time, in_key) =
        row_holds conversation_id now position messages distinct InRange n m in_range is_last in
      let older =
        rows_older conversation_id now position messages distinct m
          (row_before conversation_id now position messages distinct n m is_last) in
      inr (
        encode_buddy_message_cursor m.created_at m.id,
        (m.created_at, m.id),
        rw (h, is_last) refl,
        decode-encode_cursor m.created_at m.id in_time in_key,
        rw (reversed-reversed (take n rows), sym older)
            (cut_older n m rows (rows-IsSorted conversation_id now position messages distinct)
              is_last),
      )

-- One row more than the page holds is enough to see whether there are more.
page_limit : (n : ℕ) (rows : List BuddyMessage) → page_of n (take (n + 1) rows) ≡ page_of n rows
unfolding page_of
page_limit n rows =
    let same : ltb n (length (take (n + 1) rows)) ≡ ltb n (length rows) =
      ground (arith, length-take (n + 1) rows) in
    rw (take-take n (n + 1) rows (omega arith), same) refl

items_bounded : (n : ℕ) (rows : List BuddyMessage) → length ((page_of n rows).items) ≤ n
unfolding page_of
items_bounded n rows = omega (arith, length-reversed_onto (take n rows) [], length-take n rows)

Follows-page :
    (conversation_id now n : ℕ) (position : Option (ℕ × ℕ)) (messages : List BuddyMessage)
    → DistinctKeys messages
    → All InRange messages
    → 0 < n
    → Follows conversation_id now position messages
        (page_of n (take (n + 1) (newest_first conversation_id now position messages)))
Follows-page conversation_id now n position messages distinct in_range some_rows =
    let rows = newest_first conversation_id now position messages in
    rw (page_limit n rows) (elim (Bool-cases (ltb n (length rows))) [
      | inl more ↦
          inner_page conversation_id now n position messages distinct in_range some_rows more
      | inr done ↦
          last_page conversation_id now n position messages distinct in_range some_rows done
    ])

size_positive :
    (n : ℕ) {u : Unit {0}}
    → raise_if
        (not (leb 1 n && leb n max_chat_message_page_size))
        (value_error Complaint.page_size_out_of_range)
      ≡ ok u
    → 0 < n
size_positive n h = ground arith

ok-injective : {p q : BuddyMessagePage} → ok p ≡ ok q → p ≡ q
ok-injective h = cc

-- Reading page by page neither loses nor repeats a message. If no two messages have one key, and
-- their timestamps and keys are in the range of the columns, then a page holds at most the rows that
-- are asked for, and it either ends the effective history before its position, or hands on a cursor
-- that is accepted, such that the page, newest first, followed by the history before the cursor is
-- the history before the position.
pub pages_follow :
    (conversation_id user_id n : ℕ) (before : Option Text) (clock : Datetime) (db : Db)
    (page : BuddyMessagePage)
    → list_buddy_messages conversation_id user_id before n clock db ≡ ok page
    → DistinctKeys db.messages
    → All InRange db.messages
    → (now : ℕ) × (position : Option (ℕ × ℕ)) × (utc_now clock ≡ ok now)
      × (decode_before before ≡ ok position)
      × (length page.items ≤ n)
      × Follows conversation_id now position db.messages page
unfolding list_buddy_messages
pages_follow conversation_id user_id n before clock db page h distinct in_range =
    let (_, passed, h1) =
      ok_inv
        (raise_if (not (leb 1 n && leb n max_chat_message_page_size))
          (value_error Complaint.page_size_out_of_range))
        _ page h in
    let (_, _, h2) =
      ok_inv (require_authorized_active_conversation conversation_id user_id db) _ page h1 in
    let (now, is_now, h3) = ok_inv (utc_now clock) _ page h2 in
    let (position, decoded, h4) = ok_inv (decode_before before) _ page h3 in
    let rows = newest_first conversation_id now position db.messages in
    let made : page_of n (take (n + 1) rows) ≡ page = ok-injective h4 in
    let follows =
      Follows-page conversation_id now n position db.messages distinct in_range
        (size_positive n passed) in
    (
      now,
      position,
      is_now,
      decoded,
      subst (λ (p : BuddyMessagePage). length p.items ≤ n) made
          (rw (page_limit n rows) (items_bounded n rows)),
      subst (Follows conversation_id now position db.messages) made follows,
    )
