-- ===== src/Chat/Drained.antt =====
-- What a cleanup batch leaves (`cleanup_expired_buddy_messages`).
use buddy_web_ver.Base.{
  ℕ, suc, ◌≤◌, ◌≡◌, refl, ◌∙◌, ap, inl, inr, Bool, true, false, not, ◌&&◌, ◌||◌, List, [], ◌∷◌, ltb,
  leb, ◌==◌, if◌then◌else◌, arith, elem, length, min, select, sort_by, insert_by, take, take_all,
  length-take, length-sort_by, All, All-take, All-sort_by, Bool-cases,
}
use buddy_web_ver.Errors.{ok}
use buddy_web_ver.Models.Chat.{BuddyMessage}
use buddy_web_ver.Db.{Db}
use buddy_web_ver.Chat.Order.{DistinctKeys, All-select}
use buddy_web_ver.Chat.Cleanup.{
  may_delete, expires_before, due_messages, ids, without, cleanup_expired_buddy_messages,
}

length-ids : (ms : List BuddyMessage) → length (ids ms) ≡ length ms
length-ids [] = refl
length-ids (m ∷ ms) = ap suc (length-ids ms)

-- A key that no row has.
abbrev Lacks : ℕ → List BuddyMessage → Type 0
Lacks k = All (λ (o : BuddyMessage). (k == o.id) ≡ false)

elem-Lacks : (k : ℕ) (ms : List BuddyMessage) → Lacks k ms → elem k (ids ms) ≡ false
elem-Lacks k [] h = refl
elem-Lacks k (m ∷ ms) h = ground (arith, h.0, elem-Lacks k ms h.1)

elem-insert_by :
    (k : ℕ) (before : BuddyMessage → BuddyMessage → Bool) (m : BuddyMessage)
    (ms : List BuddyMessage)
    → elem k (ids (insert_by before m ms)) ≡ (k == m.id || elem k (ids ms))
elem-insert_by k before m [] = refl
elem-insert_by k before m (o ∷ os) = ground (arith, elem-insert_by k before m os)

elem-sort_by :
    (k : ℕ) (before : BuddyMessage → BuddyMessage → Bool) (ms : List BuddyMessage)
    → elem k (ids (sort_by before ms)) ≡ elem k (ids ms)
elem-sort_by k before [] = refl
elem-sort_by k before (m ∷ ms) =
    elem-insert_by k before m (sort_by before ms)
    ∙ ap (λ (b : Bool). k == m.id || b) (elem-sort_by k before ms)

module _ (p : BuddyMessage → Bool) where
  -- The rows that a test selects have no key of the rows that it does not.
  abbrev Apart : List BuddyMessage → List BuddyMessage → Type 0
  Apart rows [] = Unit
  Apart rows (m ∷ ms) = (p m ≡ false → Lacks m.id rows) × Apart rows ms

  Apart-cons :
      (b : Bool) (m : BuddyMessage) (rows ms : List BuddyMessage)
      → All (λ (o : BuddyMessage). (m.id == o.id) ≡ false) ms
      → Apart rows ms
      → Apart (if b then m ∷ rows else rows) ms
  Apart-cons true m rows [] h a = tt
  Apart-cons true m rows (o ∷ os) h a =
      (λ e. (ground (arith, h.0), a.0 e), Apart-cons true m rows os h.1 a.1)
  Apart-cons false m rows ms h a = a

  Apart-select : (ms : List BuddyMessage) → DistinctKeys ms → Apart (select p ms) ms
  Apart-select [] h = tt
  Apart-select (m ∷ ms) h = (
    λ e. rw e (All-select (λ (o : BuddyMessage). (m.id == o.id) ≡ false) p ms h.0),
    Apart-cons (p m) m (select p ms) ms h.0 (Apart-select ms h.1),
  )

  Apart-map :
      (rows others ms : List BuddyMessage)
      → ((k : ℕ) → Lacks k rows → Lacks k others)
      → Apart rows ms
      → Apart others ms
  Apart-map rows others [] f a = tt
  Apart-map rows others (m ∷ ms) f a = (λ e. f m.id (a.0 e), Apart-map rows others ms f a.1)

  -- Deleting rows that are apart changes nothing among the others.
  others_stay :
      (rows ms : List BuddyMessage)
      → Apart rows ms
      → select (λ m. not (p m)) (without (ids rows) ms) ≡ select (λ m. not (p m)) ms
  others_stay rows [] a = refl
  others_stay rows (m ∷ ms) a = elim (Bool-cases (p m)) [
    | inl e ↦ elim (Bool-cases (elem m.id (ids rows))) [
      | inl k ↦ rw (k, e) (others_stay rows ms a.1)
      | inr k ↦ rw (k, e) (others_stay rows ms a.1)
    ]
    | inr e ↦ rw (elem-Lacks m.id rows (a.0 e), e) (ap (◌∷◌ m) (others_stay rows ms a.1))
  ]

  -- Every row that a test selects has its key among the rows.
  abbrev Covered : List ℕ → List BuddyMessage → Type 0
  Covered keys [] = Unit
  Covered keys (m ∷ ms) = (p m ≡ true → elem m.id keys ≡ true) × Covered keys ms

  Covered-mono :
      (xs ys : List ℕ) (ms : List BuddyMessage)
      → ((k : ℕ) → elem k xs ≡ true → elem k ys ≡ true)
      → Covered xs ms
      → Covered ys ms
  Covered-mono xs ys [] f c = tt
  Covered-mono xs ys (m ∷ ms) f c = (λ e. f m.id (c.0 e), Covered-mono xs ys ms f c.1)

  Covered-cons :
      (b : Bool) (m : BuddyMessage) (rows ms : List BuddyMessage)
      → p m ≡ b
      → Covered (ids rows) ms
      → Covered (ids (if b then m ∷ rows else rows)) (m ∷ ms)
  Covered-cons true m rows ms e c =
      (λ _. ground arith, Covered-mono (ids rows) (m.id ∷ ids rows) ms (λ k h. ground (arith, h)) c)
  Covered-cons false m rows ms e c = (λ h. cc, c)

  Covered-select : (ms : List BuddyMessage) → Covered (ids (select p ms)) ms
  Covered-select [] = tt
  Covered-select (m ∷ ms) = Covered-cons (p m) m (select p ms) ms refl (Covered-select ms)

  none_left :
      (keys : List ℕ) (ms : List BuddyMessage) → Covered keys ms → select p (without keys ms) ≡ []
  none_left keys [] c = refl
  none_left keys (m ∷ ms) c = elim (Bool-cases (elem m.id keys)) [
    | inl k ↦ rw k (none_left keys ms c.1)
    | inr k ↦ elim (Bool-cases (p m)) [
      | inl e ↦ let wrong = c.0 e in cc
      | inr e ↦ rw (k, e) (none_left keys ms c.1)
    ]
  ]

module _ (locked : ℕ → Bool) (batch_size at : ℕ) (messages : List BuddyMessage) where
  due-Apart :
      DistinctKeys messages
      → Apart (may_delete locked at) (due_messages locked batch_size at messages) messages
  unfolding due_messages
  due-Apart distinct =
      let p = may_delete locked at in
      Apart-map p (select p messages) (take batch_size (sort_by expires_before (select p messages)))
        messages
        (λ k h.
          All-take (λ (o : BuddyMessage). (k == o.id) ≡ false) batch_size _
            (All-sort_by (λ (o : BuddyMessage). (k == o.id) ≡ false) expires_before
              (select p messages) h))
        (Apart-select p messages distinct)

  due-Covered :
      length (select (may_delete locked at) messages) ≤ batch_size
      → Covered (may_delete locked at) (ids (due_messages locked batch_size at messages)) messages
  unfolding due_messages
  due-Covered enough =
      let p = may_delete locked at in
      let sorted = sort_by expires_before (select p messages) in
      rw
        (take_all batch_size sorted
          (omega (arith, enough, length-sort_by expires_before (select p messages))))
        (Covered-mono p (ids (select p messages)) (ids sorted) messages
          (λ k h. elem-sort_by k expires_before (select p messages) ∙ h)
          (Covered-select p messages))

  length-due_messages :
      length (ids (due_messages locked batch_size at messages))
      ≡ min batch_size (length (select (may_delete locked at) messages))
  unfolding due_messages
  length-due_messages =
      let chosen = select (may_delete locked at) messages in
      length-ids (take batch_size (sort_by expires_before chosen))
      ∙ length-take batch_size (sort_by expires_before chosen)
      ∙ ap (min batch_size) (length-sort_by expires_before chosen)

-- A cleanup at a time that has come, within its bounds, on messages of which no two have one key,
-- succeeds. It reports as many messages as are expired and not locked, up to its size; all messages
-- that are not expired, or locked, stay, in their order; if its size allows, no message that it may
-- delete is left; and nothing but messages is written.
pub cleanup_drains :
    (locked : ℕ → Bool) (batch_size at statement_timestamp : ℕ) (db : Db)
    → 1 ≤ batch_size
    → batch_size ≤ 100
    → at ≤ statement_timestamp
    → DistinctKeys db.messages
    → (deleted : List ℕ) × (db' : Db) × (cleanup_expired_buddy_messages locked batch_size at
          statement_timestamp db
        ≡ ok (deleted, db'))
      × (length deleted ≡ min batch_size (length (select (may_delete locked at) db.messages)))
      × (select (λ m. not (may_delete locked at m)) db'.messages
          ≡ select (λ m. not (may_delete locked at m)) db.messages)
      × (length (select (may_delete locked at) db.messages) ≤ batch_size
          → select (may_delete locked at) db'.messages ≡ [])
      × (db' ≡ record db { messages = db'.messages })
unfolding cleanup_expired_buddy_messages
cleanup_drains locked batch_size at statement_timestamp db some_rows bounded come distinct =
    let rows = due_messages locked batch_size at db.messages in
    let p = may_delete locked at in
    let in_bounds : (leb 1 batch_size && leb batch_size 100) ≡ true = ground arith in
    let is_past : ltb statement_timestamp at ≡ false = ground arith in
    (
      ids rows,
      record db { messages = without (ids rows) db.messages },
      rw (in_bounds, is_past) refl,
      length-due_messages locked batch_size at db.messages,
      others_stay p rows db.messages (due-Apart locked batch_size at db.messages distinct),
      λ enough.
          none_left p (ids rows) db.messages (due-Covered locked batch_size at db.messages enough),
      refl,
    )
