-- ===== src/Outbox/Leases.antt =====
-- A claim gives a worker its events alone until the lease ends, and the operations on the table are
-- steps of each event.
use buddy_web_ver.Base.{
  ℕ, ◌+◌, ◌≤◌, ◌<◌, ◌≡◌, refl, inl, inr, Bool, true, false, not, ◌&&◌, List, [], ◌∷◌, map, arith,
  ◌==◌, select, elem, All, All-take, All-sort_by, Bool-cases, ==→eq,
}
use buddy_web_ver.Errors.{ok}
use buddy_web_ver.Time.{aware}
use buddy_web_ver.Text.{Text}
use buddy_web_ver.Models.Outbox.{TransactionalOutbox}
use buddy_web_ver.Db.{Db}
use buddy_web_ver.Outbox.Event.{validate_identifier}
use buddy_web_ver.Outbox.Claim.{
  is_ready, attempted_before, ready_rows, lease_row, lease_rows, claim_transactional_outbox,
  outbox_lease_ttl, max_outbox_batch_size,
}

abbrev pub ids : List TransactionalOutbox → List ℕ
ids rows = map (λ row. row.id) rows

module _ (locked : ℕ → Bool) where
  -- A claim that succeeds, with the name of the worker in its stripped form.
  pub claim_result :
      (worker_id : Text) (batch_size now : ℕ) (db db' : Db) (claimed : List ℕ)
      → claim_transactional_outbox locked worker_id batch_size (aware now) db ≡ ok (claimed, db')
      → (name : Text) × (validate_identifier 100 worker_id ≡ ok name)
        × (batch_size ≤ max_outbox_batch_size)
        × (claimed ≡ ids (ready_rows locked batch_size now db.outbox))
        × (db' ≡ record db { outbox = lease_rows claimed name now db.outbox })
  unfolding claim_transactional_outbox
  claim_result worker_id batch_size now db db' claimed h = ground arith

-- Rows of a batch keep what holds of every row that the query may select.
module _ {κ} (P : TransactionalOutbox → Type κ) (locked : ℕ → Bool) where
  pub All-ready_rows :
      (batch_size now : ℕ) (rows : List TransactionalOutbox)
      → All P (select (λ row. is_ready now row && not (locked row.id)) rows)
      → All P (ready_rows locked batch_size now rows)
  unfolding ready_rows
  All-ready_rows batch_size now rows h =
      All-take P batch_size _ (All-sort_by P attempted_before _ h)

-- No row whose key is in a batch is ready again before the lease of the batch ends.
leased_rest :
    (locked : ℕ → Bool) (claimed : List ℕ) (name : Text) (now t : ℕ)
    (rows : List TransactionalOutbox)
    → t < now + outbox_lease_ttl
    → All
        (λ row. elem row.id claimed ≡ false)
        (select (λ row. is_ready t row && not (locked row.id)) (lease_rows claimed name now rows))
leased_rest locked claimed name now t [] h = tt
leased_rest locked claimed name now t (row ∷ rows) h = elim (Bool-cases (elem row.id claimed)) [
  | inl e ↦ rw e (
      let rest = leased_rest locked claimed name now t rows h in
      let unready : is_ready t (lease_row name now row) ≡ false = ground arith in rw unready rest)
  | inr e ↦
      let rest = leased_rest locked claimed name now t rows h in
      elim (Bool-cases (is_ready t row && not (locked row.id))) [
        | inl r ↦ rw (e, r) (e, rest)
        | inr r ↦ rw (e, r) rest
      ]
]

absent_ids :
    (k : ℕ) (claimed : List ℕ) (rows : List TransactionalOutbox)
    → elem k claimed ≡ true
    → All (λ row. elem row.id claimed ≡ false) rows
    → elem k (ids rows) ≡ false
absent_ids k claimed [] h a = refl
absent_ids k claimed (row ∷ rows) h a = elim (Bool-cases (k == row.id)) [
  | inl e ↦ let wrong : elem k claimed ≡ false = rw (==→eq k row.id e) a.0 in cc
  | inr e ↦ rw e (absent_ids k claimed rows h a.1)
]

-- Until its lease ends, a claimed event is claimed by no one again: whichever worker asks next, with
-- whatever batch size and whatever rows it finds locked, at a time before the end of the first
-- claim's lease, the two batches have no event in common.
pub claims_disjoint :
    (locked locked' : ℕ → Bool) (worker_id worker_id' : Text) (batch_size batch_size' now t k : ℕ)
    (db db' db'' : Db) (claimed claimed' : List ℕ)
    → claim_transactional_outbox locked worker_id batch_size (aware now) db ≡ ok (claimed, db')
    → claim_transactional_outbox locked' worker_id' batch_size' (aware t) db' ≡ ok (claimed', db'')
    → t < now + outbox_lease_ttl
    → elem k claimed ≡ true
    → elem k claimed' ≡ false
claims_disjoint locked locked' w w' n n' now t k db db' db'' claimed claimed' first second before
      h =
    let (name, valid, _, _, left) = claim_result locked w n now db db' claimed first in
    let (_, _, _, taken, _) = claim_result locked' w' n' t db' db'' claimed' second in
    rw (taken, left)
      (absent_ids k claimed _ h (
        All-ready_rows (λ row. elem row.id claimed ≡ false) locked' n' t
          (lease_rows claimed name now db.outbox)
          (leased_rest locked' claimed name now t db.outbox before)))
