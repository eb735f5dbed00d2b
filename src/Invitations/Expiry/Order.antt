-- ===== src/Invitations/Expiry/Order.antt =====
-- The order of the due rows: sorting and cutting keep what holds of each row, and lose none.
use buddy_web_ver.Base.{
  ℕ, ◌<◌, ◌≤◌, ◌⊎◌, zero, suc, ◌≡◌, refl, ◌∙◌, ap, true, false, ◌||◌, List, [], ◌∷◌, map, arith,
  ◌==◌, take, length, elem, All, Bool-cases, inl, inr,
}
use buddy_web_ver.Models.Invitation.{MatchingInvitation}
use buddy_web_ver.Invitations.Expiry.{due_before, insert_due, order_due}

-- Sorting, selecting and cutting keep what holds of the rows.
module _ {κ} (P : MatchingInvitation → Type κ) where
  All-insert_due :
      (i : MatchingInvitation) (is : List MatchingInvitation)
      → P i
      → All P is
      → All P (insert_due i is)
  All-insert_due i [] p h = (p, tt)
  All-insert_due i (j ∷ js) p h = elim (Bool-cases (due_before i j)) [
    | inl e ↦ rw e (p, h)
    | inr e ↦ rw e (h.0, All-insert_due i js p h.1)
  ]

  pub All-order_due : (is : List MatchingInvitation) → All P is → All P (order_due is)
  All-order_due [] h = tt
  All-order_due (i ∷ is) h = All-insert_due i (order_due is) h.0 (All-order_due is h.1)

  pub All-take_due : (n : ℕ) (is : List MatchingInvitation) → All P is → All P (take n is)
  All-take_due zero is h = tt
  All-take_due (suc n) [] h = tt
  All-take_due (suc n) (i ∷ is) h = (h.0, All-take_due n is h.1)

length-insert_due :
    (i : MatchingInvitation) (is : List MatchingInvitation)
    → length (insert_due i is) ≡ suc (length is)
length-insert_due i [] = refl
length-insert_due i (j ∷ js) = ground (arith, length-insert_due i js)

pub length-order_due : (is : List MatchingInvitation) → length (order_due is) ≡ length is
length-order_due [] = refl
length-order_due (i ∷ is) = omega (arith, length-insert_due i (order_due is), length-order_due is)

abbrev pub ids : List MatchingInvitation → List ℕ
ids = map (λ i. i.id)

elem-insert_due :
    (k : ℕ) (i : MatchingInvitation) (is : List MatchingInvitation)
    → elem k (ids (insert_due i is)) ≡ (k == i.id || elem k (ids is))
elem-insert_due k i [] = refl
elem-insert_due k i (j ∷ js) = ground (arith, elem-insert_due k i js)

pub elem-order_due :
    (k : ℕ) (is : List MatchingInvitation) → elem k (ids (order_due is)) ≡ elem k (ids is)
elem-order_due k [] = refl
elem-order_due k (i ∷ is) =
    elem-insert_due k i (order_due is) ∙ ap (λ b. k == i.id || b) (elem-order_due k is)

-- One row is due before another: by the deadline, and by the key where the deadlines are equal.
abbrev pub IsBefore : MatchingInvitation → MatchingInvitation → Type 0
IsBefore i j = (i.expires_at < j.expires_at) ⊎ ((i.expires_at ≡ j.expires_at) × (i.id ≤ j.id))

abbrev pub IsOrdered : List MatchingInvitation → Type 0
IsOrdered [] = Unit
IsOrdered (i ∷ is) = All (IsBefore i) is × IsOrdered is

IsBefore-trans : (i j k : MatchingInvitation) → IsBefore i j → IsBefore j k → IsBefore i k
IsBefore-trans i j k h g = ground arith

due-IsBefore : (i j : MatchingInvitation) → due_before i j ≡ true → IsBefore i j
due-IsBefore i j h = ground arith

not_due-IsBefore : (i j : MatchingInvitation) → due_before i j ≡ false → IsBefore j i
not_due-IsBefore i j h = ground arith

All-IsBefore :
    (i j : MatchingInvitation) (is : List MatchingInvitation)
    → IsBefore i j
    → All (IsBefore j) is
    → All (IsBefore i) is
All-IsBefore i j [] h g = tt
All-IsBefore i j (k ∷ ks) h g = (IsBefore-trans i j k h g.0, All-IsBefore i j ks h g.1)

insert_due-IsOrdered :
    (i : MatchingInvitation) (is : List MatchingInvitation)
    → IsOrdered is
    → IsOrdered (insert_due i is)
insert_due-IsOrdered i [] h = (tt, tt)
insert_due-IsOrdered i (j ∷ js) h = elim (Bool-cases (due_before i j)) [
  | inl e ↦ let first = due-IsBefore i j e in rw e ((first, All-IsBefore i j js first h.0), h)
  | inr e ↦
      rw e (
        All-insert_due (IsBefore j) i js (not_due-IsBefore i j e) h.0,
        insert_due-IsOrdered i js h.1,
      )
]

order_due-IsOrdered : (is : List MatchingInvitation) → IsOrdered (order_due is)
order_due-IsOrdered [] = tt
order_due-IsOrdered (i ∷ is) = insert_due-IsOrdered i (order_due is) (order_due-IsOrdered is)

take-IsOrdered : (n : ℕ) (is : List MatchingInvitation) → IsOrdered is → IsOrdered (take n is)
take-IsOrdered zero is h = tt
take-IsOrdered (suc n) [] h = tt
take-IsOrdered (suc n) (i ∷ is) h = (All-take_due (IsBefore i) n is h.0, take-IsOrdered n is h.1)

-- The first rows of an ordered list, in order.
pub take_due-IsOrdered : (n : ℕ) (is : List MatchingInvitation) → IsOrdered (take n (order_due is))
take_due-IsOrdered n is = take-IsOrdered n (order_due is) (order_due-IsOrdered is)

-- A row is among `rows` by its key, or none of them comes after it.
abbrev pub IsInTurn : List MatchingInvitation → MatchingInvitation → Type 0
IsInTurn rows j = (elem j.id (ids rows) ≡ true) ⊎ All (λ i. IsBefore i j) rows

IsInTurn-cons :
    (i : MatchingInvitation) (rows js : List MatchingInvitation)
    → All (IsBefore i) js
    → All (IsInTurn rows) js
    → All (IsInTurn (i ∷ rows)) js
IsInTurn-cons i rows [] first turn = tt
IsInTurn-cons i rows (j ∷ js) first turn = (
  elim turn.0 [ inl e ↦ inl (ground arith) | inr all ↦ inr (first.0, all) ],
  IsInTurn-cons i rows js first.1 turn.1,
)

none_taken : (js : List MatchingInvitation) → All (IsInTurn []) js
none_taken [] = tt
none_taken (j ∷ js) = (inr tt, none_taken js)

take-IsInTurn :
    (n : ℕ) (is : List MatchingInvitation) → IsOrdered is → All (IsInTurn (take n is)) is
take-IsInTurn zero is h = none_taken is
take-IsInTurn (suc n) [] h = tt
take-IsInTurn (suc n) (i ∷ is) h =
    (inl (ground arith), IsInTurn-cons i (take n is) is h.0 (take-IsInTurn n is h.1))

-- What holds of the sorted rows holds of the rows.
module _ {κ} (P : MatchingInvitation → Type κ) where
  inserted-All :
      (i : MatchingInvitation) (is : List MatchingInvitation)
      → All P (insert_due i is)
      → P i × All P is
  inserted-All i [] h = (h.0, tt)
  inserted-All i (j ∷ js) h = elim (Bool-cases (due_before i j)) [
    | inl e ↦ let all = rw e at h in (all.0, all.1)
    | inr e ↦
        let all = rw e at h in let (first, rest) = inserted-All i js all.1 in (first, (all.0, rest))
  ]

  sorted-All : (is : List MatchingInvitation) → All P (order_due is) → All P is
  sorted-All [] h = tt
  sorted-All (i ∷ is) h =
      let (first, rest) = inserted-All i (order_due is) h in (first, sorted-All is rest)

-- No row is passed over for one that is due later.
pub take_due-IsInTurn :
    (n : ℕ) (is : List MatchingInvitation) → All (IsInTurn (take n (order_due is))) is
take_due-IsInTurn n is =
    sorted-All (IsInTurn (take n (order_due is))) is
      (take-IsInTurn n (order_due is) (order_due-IsOrdered is))
