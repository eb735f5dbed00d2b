-- ===== src/Outbox/Claimed.antt =====
-- A claim row by row (`claim_transactional_outbox`): which events it takes, and how it leaves them.
use buddy_web_ver.Base.{
  ℕ, zero, suc, ◌≤◌, ◌≡◌, refl, ◌∙◌, sym, ap, subst, ◌⊎◌, inl, inr, Bool, true, false, not, ◌&&◌,
  ◌||◌, List, [], ◌∷◌, arith, ◌==◌, take, select, elem, insert_by, sort_by, length, length-take,
  Bool-cases, ==→eq,
}
use buddy_web_ver.Errors.{ok}
use buddy_web_ver.Time.{aware}
use buddy_web_ver.Text.{Text}
use buddy_web_ver.Models.Outbox.{TransactionalOutbox}
use buddy_web_ver.Db.{Db}
use buddy_web_ver.Outbox.Event.{validate_identifier}
use buddy_web_ver.Outbox.Claim.{
  is_ready, attempted_before, ready_rows, lease_row, lease_rows, claim_transactional_outbox,
}
use buddy_web_ver.Outbox.Steps.{claims}
use buddy_web_ver.Outbox.Leases.{ids, claim_result}
use buddy_web_ver.Outbox.Moves.{IsKeyed, Moves}

-- Row by row: one whose key is among `claimed` was ready and not locked, and is leased to the worker;
-- another one is the same.
abbrev pub Claims :
    (ℕ → Bool) → Text → ℕ → List ℕ → List TransactionalOutbox → List TransactionalOutbox → Type 0
Claims locked name now claimed [] [] = Unit
Claims locked name now claimed [] (row' ∷ rows') = ⊥
Claims locked name now claimed (row ∷ rows) [] = ⊥
Claims locked name now claimed (row ∷ rows) (row' ∷ rows') =
    (((elem row.id claimed ≡ true)
        × (is_ready now row ≡ true)
        × (locked row.id ≡ false)
        × (row' ≡ lease_row name now row))
      ⊎ ((elem row.id claimed ≡ false) × (row' ≡ row)))
    × Claims locked name now claimed rows rows'

-- A claim is the step `claims` on each row that it takes.
Claims-Moves :
    (locked : ℕ → Bool) (name : Text) (now : ℕ) (claimed : List ℕ)
    (rows rows' : List TransactionalOutbox)
    → Claims locked name now claimed rows rows'
    → Moves rows rows'
Claims-Moves locked name now claimed [] [] c = tt
Claims-Moves locked name now claimed [] (row' ∷ rows') c = c
Claims-Moves locked name now claimed (row ∷ rows) [] c = c
Claims-Moves locked name now claimed (row ∷ rows) (row' ∷ rows') (c, cs) =
    let rest = Claims-Moves locked name now claimed rows rows' cs in
    elim c [
      | inl taken ↦ let (_, ready, _, e) = taken in (rw e (inr (0, claims name now ready)), rest)
      | inr other ↦ (inl other.1, rest)
    ]

length-ids : (rows : List TransactionalOutbox) → length (ids rows) ≡ length rows
length-ids [] = refl
length-ids (row ∷ rows) = ap suc (length-ids rows)

elem-take :
    (k n : ℕ) (rows : List TransactionalOutbox)
    → elem k (ids (take n rows)) ≡ true
    → elem k (ids rows) ≡ true
elem-take k zero rows h = cc
elem-take k (suc n) [] h = cc
elem-take k (suc n) (row ∷ rows) h = ground (arith, elem-take k n rows)

elem-insert_by :
    (k : ℕ) (row : TransactionalOutbox) (rows : List TransactionalOutbox)
    → elem k (ids (insert_by attempted_before row rows)) ≡ elem k (ids (row ∷ rows))
elem-insert_by k row [] = refl
elem-insert_by k row (other ∷ rows) = ground (arith, elem-insert_by k row rows)

elem-sort_by :
    (k : ℕ) (rows : List TransactionalOutbox)
    → elem k (ids (sort_by attempted_before rows)) ≡ elem k (ids rows)
elem-sort_by k [] = refl
elem-sort_by k (row ∷ rows) =
    elem-insert_by k row (sort_by attempted_before rows)
    ∙ ap (λ b. k == row.id || b) (elem-sort_by k rows)

elem-select :
    (k : ℕ) (p : TransactionalOutbox → Bool) (rows : List TransactionalOutbox)
    → elem k (ids (select p rows)) ≡ true
    → elem k (ids rows) ≡ true
elem-select k p [] h = h
elem-select k p (row ∷ rows) h = ground (arith, elem-select k p rows)

elem-ready_rows :
    (locked : ℕ → Bool) (k batch_size now : ℕ) (rows : List TransactionalOutbox)
    → elem k (ids (ready_rows locked batch_size now rows)) ≡ true
    → elem k (ids (select (λ row. is_ready now row && not (locked row.id)) rows)) ≡ true
unfolding ready_rows
elem-ready_rows locked k batch_size now rows h = sym (elem-sort_by k _) ∙ elem-take k batch_size _ h

-- A key among the later rows is another one.
apart :
    (k : ℕ) (row : TransactionalOutbox) (rows : List TransactionalOutbox)
    → elem row.id (ids rows) ≡ false
    → elem k (ids rows) ≡ true
    → (k == row.id) ≡ false
apart k row rows absent here = elim (Bool-cases (k == row.id)) [
  | inl e ↦ let wrong : elem row.id (ids rows) ≡ true = rw (==→eq k row.id e) at here in cc
  | inr e ↦ e
]

length-ready_rows :
    (locked : ℕ → Bool) (batch_size now : ℕ) (rows : List TransactionalOutbox)
    → length (ids (ready_rows locked batch_size now rows)) ≤ batch_size
unfolding ready_rows
length-ready_rows locked batch_size now rows = omega (
  arith,
  length-ids (ready_rows locked batch_size now rows),
  length-take batch_size
      (sort_by attempted_before (select (λ row. is_ready now row && not (locked row.id)) rows)),
)

module _ (locked : ℕ → Bool) (name : Text) (now : ℕ) (claimed : List ℕ) where
  -- Rows of which every claimed one is ready and not locked.
  ReadyIfClaimed : List TransactionalOutbox → Type 0
  ReadyIfClaimed [] = Unit
  ReadyIfClaimed (row ∷ rows) =
      (elem row.id claimed ≡ true → (is_ready now row ≡ true) × (locked row.id ≡ false))
      × ReadyIfClaimed rows

  lease_rows-Claims :
      (rows : List TransactionalOutbox)
      → ReadyIfClaimed rows
      → Claims locked name now claimed rows (lease_rows claimed name now rows)
  unfolding ReadyIfClaimed
  lease_rows-Claims [] r = tt
  lease_rows-Claims (row ∷ rows) r = elim (Bool-cases (elem row.id claimed)) [
    | inl e ↦
        let (ready, free) = r.0 e in
        rw e (inl (refl, ready, free, refl), lease_rows-Claims rows r.1)
    | inr e ↦ rw e (inr (refl, refl), lease_rows-Claims rows r.1)
  ]

  -- In a table with keys, the keys of selected rows are those of ready rows.
  selected_ready :
      (p : TransactionalOutbox → Bool) (rows : List TransactionalOutbox)
      → IsKeyed rows
      → ((row : TransactionalOutbox)
          → p row ≡ true
          → (is_ready now row ≡ true) × (locked row.id ≡ false))
      → ((k : ℕ)
          → elem k (ids rows) ≡ true
          → elem k claimed ≡ true
          → elem k (ids (select p rows)) ≡ true)
      → ReadyIfClaimed rows
  unfolding ReadyIfClaimed
  selected_ready p [] keyed sound sub = tt
  selected_ready p (row ∷ rows) keyed sound sub = (
    λ h. elim (Bool-cases (p row)) [
      | inl e ↦ sound row e
      | inr e ↦
          let found : elem row.id (ids (select p rows)) ≡ true =
            rw e at sub row.id (ground arith) h in
          let wrong = elem-select row.id p rows found in cc
    ],
    selected_ready p rows keyed.1 sound (λ k here h.
        let found = sub k (ground arith) h in
        let other : (k == row.id) ≡ false = apart k row rows keyed.0 here in
        elim (Bool-cases (p row)) [
          | inl e ↦ ground (arith, found)
          | inr e ↦ ground (arith, found)
        ]),
  )

-- A claim in a table with keys, row by row: an event whose key is reported was ready and not locked,
-- and is leased to the worker, under the stripped name, which is the step `claims` of `Step`; every
-- other event is as before. The reported keys are keys of the table, and no more than were asked for.
pub claim-Moves :
    (locked : ℕ → Bool) (worker_id : Text) (batch_size now : ℕ) (db db' : Db) (claimed : List ℕ)
    → IsKeyed db.outbox
    → claim_transactional_outbox locked worker_id batch_size (aware now) db ≡ ok (claimed, db')
    → (name : Text) × (validate_identifier 100 worker_id ≡ ok name)
      × Claims locked name now claimed db.outbox db'.outbox
      × Moves db.outbox db'.outbox
      × ((k : ℕ) → elem k claimed ≡ true → elem k (ids db.outbox) ≡ true)
      × (length claimed ≤ batch_size)
claim-Moves locked worker_id batch_size now db db' claimed keyed h =
    let free : TransactionalOutbox → Bool = λ row. is_ready now row && not (locked row.id) in
    let (name, valid, within, taken, left) =
      claim_result locked worker_id batch_size now db db' claimed h in
    let selected : (k : ℕ) → elem k claimed ≡ true → elem k (ids (select free db.outbox)) ≡ true =
      λ k h. elem-ready_rows locked k batch_size now db.outbox (rw taken at h) in
    let leased = lease_rows-Claims locked name now claimed db.outbox (
      selected_ready locked name now claimed free db.outbox keyed
        (λ row r. (ground arith, ground arith)) (λ k here h. selected k h)) in
    let after : Claims locked name now claimed db.outbox db'.outbox =
      subst (λ (d : Db). Claims locked name now claimed db.outbox d.outbox) (sym left) leased in
    (
      name,
      valid,
      after,
      Claims-Moves locked name now claimed db.outbox db'.outbox after,
      λ k h. elem-select k free db.outbox (selected k h),
      rw taken (length-ready_rows locked batch_size now db.outbox),
    )
