-- ===== src/Chat/Order.antt =====
-- Messages in the order of the history: sorting, filtering, and cutting the order at a message.
use buddy_web_ver.Base.{
  ℕ, zero, suc, ◌≡◌, refl, ◌∙◌, ap, subst, Bool, true, false, none, some, List, [], ◌∷◌, ◌++◌, ◌==◌,
  if◌then◌else◌, arith, take, select, All, insert_by, sort_by, All-insert_by, All-sort_by,
  Bool-cases, inl, inr,
}
use buddy_web_ver.Models.Chat.{BuddyMessage}
use buddy_web_ver.Chat.History.{is_older, newer, last}

-- No two rows have one key.
abbrev pub DistinctKeys : List BuddyMessage → Type 0
DistinctKeys [] = Unit
DistinctKeys (m ∷ ms) = All (λ (o : BuddyMessage). (m.id == o.id) ≡ false) ms × DistinctKeys ms

-- Every message is newer than all that follow it.
abbrev pub IsSorted : List BuddyMessage → Type 0
IsSorted [] = Unit
IsSorted (m ∷ ms) = All (λ (o : BuddyMessage). newer m o ≡ true) ms × IsSorted ms

none≢some : {m : BuddyMessage} → none ≡ some m → ⊥
none≢some h = cc

some-injective : {a b : BuddyMessage} → some a ≡ some b → a ≡ b
some-injective h = cc

pub newer_trans : (a b c : BuddyMessage) → newer a b ≡ true → newer b c ≡ true → newer a c ≡ true
newer_trans a b c h k = ground arith

newer_asym : (a b : BuddyMessage) → newer a b ≡ true → newer b a ≡ false
newer_asym a b h = ground arith

newer_irrefl : (a : BuddyMessage) → newer a a ≡ false
newer_irrefl a = ground arith

newer_total : (a b : BuddyMessage) → (a.id == b.id) ≡ false → newer a b ≡ false → newer b a ≡ true
newer_total a b h k = ground arith

module _ {κ κ'} {P : BuddyMessage → Type κ} {Q : BuddyMessage → Type κ'} where
  All-map : (f : (o : BuddyMessage) → P o → Q o) (ms : List BuddyMessage) → All P ms → All Q ms
  All-map f [] h = tt
  All-map f (m ∷ ms) h = (f m h.0, All-map f ms h.1)

pub All-select {κ} :
    (P : BuddyMessage → Type κ) (p : BuddyMessage → Bool) (ms : List BuddyMessage)
    → All P ms
    → All P (select p ms)
All-select P p [] h = tt
All-select P p (m ∷ ms) h = elim (Bool-cases (p m)) [
  | inl e ↦ rw e (h.0, All-select P p ms h.1)
  | inr e ↦ rw e (All-select P p ms h.1)
]

pub select-DistinctKeys :
    (p : BuddyMessage → Bool) (ms : List BuddyMessage)
    → DistinctKeys ms
    → DistinctKeys (select p ms)
select-DistinctKeys p [] h = tt
select-DistinctKeys p (m ∷ ms) h = elim (Bool-cases (p m)) [
  | inl e ↦ rw e (All-select _ p ms h.0, select-DistinctKeys p ms h.1)
  | inr e ↦ rw e (select-DistinctKeys p ms h.1)
]

insert-IsSorted :
    (m : BuddyMessage) (ms : List BuddyMessage)
    → All (λ (o : BuddyMessage). (m.id == o.id) ≡ false) ms
    → IsSorted ms
    → IsSorted (insert_by newer m ms)
insert-IsSorted m [] d h = (tt, tt)
insert-IsSorted m (o ∷ os) d h = elim (Bool-cases (newer m o)) [
  | inl e ↦ rw e ((e, All-map (λ z k. newer_trans m o z e k) os h.0), h)
  | inr e ↦ rw e (
    All-insert_by (λ (z : BuddyMessage). newer o z ≡ true) newer m os (newer_total m o d.0 e) h.0,
    insert-IsSorted m os d.1 h.1,
  )
]

pub sort-IsSorted : (ms : List BuddyMessage) → DistinctKeys ms → IsSorted (sort_by newer ms)
sort-IsSorted [] d = tt
sort-IsSorted (m ∷ ms) d =
    insert-IsSorted m (sort_by newer ms) (All-sort_by _ newer ms d.0) (sort-IsSorted ms d.1)

-- What stands before nothing of a list is put in front of it.
insert_front :
    (m : BuddyMessage) (ms : List BuddyMessage)
    → All (λ (o : BuddyMessage). newer m o ≡ true) ms
    → insert_by newer m ms ≡ m ∷ ms
insert_front m [] h = refl
insert_front m (o ∷ os) h = rw h.0 refl

select-insert :
    (p : BuddyMessage → Bool) (m : BuddyMessage) (ms : List BuddyMessage)
    → IsSorted ms
    → select p (insert_by newer m ms)
      ≡ (if p m then insert_by newer m (select p ms) else select p ms)
select-insert p m [] h = refl
select-insert p m (o ∷ os) h = elim (Bool-cases (newer m o)) [
  | inl e ↦
      let front =
        insert_front m (select p (o ∷ os))
          (All-select _ p (o ∷ os) (e, All-map (λ z k. newer_trans m o z e k) os h.0)) in
      rw (e, front) refl
  | inr e ↦ ground (arith, select-insert p m os h.1)
]

pub select-sort :
    (p : BuddyMessage → Bool) (ms : List BuddyMessage)
    → DistinctKeys ms
    → select p (sort_by newer ms) ≡ sort_by newer (select p ms)
select-sort p [] d = refl
select-sort p (m ∷ ms) d =
    select-insert p m (sort_by newer ms) (sort-IsSorted ms d.1)
    ∙ ground (arith, select-sort p ms d.1)

-- All that follow a message in the order are older.
select-All :
    (p : BuddyMessage → Bool) (ms : List BuddyMessage)
    → All (λ (o : BuddyMessage). p o ≡ true) ms
    → select p ms ≡ ms
select-All p [] h = refl
select-All p (m ∷ ms) h = rw h.0 (ap (λ (l : List BuddyMessage). m ∷ l) (select-All p ms h.1))

pub last_holds {κ} :
    (P : BuddyMessage → Type κ) (n : ℕ) (m : BuddyMessage) (ms : List BuddyMessage)
    → All P ms
    → last (take n ms) ≡ some m
    → P m
last_holds P zero m ms h e = absurd (none≢some e)
last_holds P (suc n) m [] h e = absurd (none≢some e)
last_holds P (suc zero) m (x ∷ xs) h e = subst P (some-injective e) h.0
last_holds P (suc (suc n)) m (x ∷ []) h e = subst P (some-injective e) h.0
last_holds P (suc (suc n)) m (x ∷ y ∷ ys) h e = last_holds P (suc n) m (y ∷ ys) h.1 e

cut_first :
    (x : BuddyMessage) (xs : List BuddyMessage)
    → IsSorted (x ∷ xs)
    → select (is_older (x.created_at, x.id)) (x ∷ xs) ≡ xs
cut_first x xs h = rw (newer_irrefl x) (select-All (newer x) xs h.0)

-- A sorted list is its first rows and those older than the last of them.
pub cut_older :
    (n : ℕ) (m : BuddyMessage) (ms : List BuddyMessage)
    → IsSorted ms
    → last (take n ms) ≡ some m
    → take n ms ++ select (is_older (m.created_at, m.id)) ms ≡ ms
cut_older zero m ms h e = absurd (none≢some e)
cut_older (suc n) m [] h e = absurd (none≢some e)
cut_older (suc zero) m (x ∷ xs) h e =
    subst (λ (z : BuddyMessage). x ∷ select (is_older (z.created_at, z.id)) (x ∷ xs) ≡ x ∷ xs)
      (some-injective e) (ap (λ (l : List BuddyMessage). x ∷ l) (cut_first x xs h))
cut_older (suc (suc n)) m (x ∷ []) h e =
    subst (λ (z : BuddyMessage). x ∷ select (is_older (z.created_at, z.id)) (x ∷ []) ≡ x ∷ [])
      (some-injective e) (ap (λ (l : List BuddyMessage). x ∷ l) (cut_first x [] h))
cut_older (suc (suc n)) m (x ∷ y ∷ ys) h e =
    let later : newer x m ≡ true =
      last_holds (λ (o : BuddyMessage). newer x o ≡ true) (suc n) m (y ∷ ys) h.0 e in
    let skipped : is_older (m.created_at, m.id) x ≡ false = newer_asym x m later in
    rw skipped (ap (λ (l : List BuddyMessage). x ∷ l) (cut_older (suc n) m (y ∷ ys) h.1 e))
