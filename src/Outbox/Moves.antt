-- ===== src/Outbox/Moves.antt =====
-- Recording a delivery on the table: every row is as before or has made one step of `Step`.
use buddy_web_ver.Base.{
  ℕ, ◌≡◌, refl, ◌∙◌, ◌⊎◌, inl, inr, true, false, Option, some, List, [], ◌∷◌, arith, ◌==◌, scalar,
  elem, Bool-cases, Option-cases, ==→eq,
}
use buddy_web_ver.Errors.{Result, ok, err, ◌>>=◌}
use buddy_web_ver.Time.{Datetime, naive, aware}
use buddy_web_ver.Text.{Text}
use buddy_web_ver.Models.Outbox.{TransactionalOutbox}
use buddy_web_ver.Db.{Db}
use buddy_web_ver.Db.Tables.{scalar_sound}
use buddy_web_ver.Outbox.Finalize.{
  Failure, Delivery, finalize_row, is_held_by, put_outbox, finalize_delivery, finalize_held,
  skipped,
}
use buddy_web_ver.Outbox.Steps.{Step, finalizes}
use buddy_web_ver.Outbox.Leases.{ids}

-- The primary key.
abbrev pub IsKeyed : List TransactionalOutbox → Type 0
IsKeyed [] = Unit
IsKeyed (row ∷ rows) = (elem row.id (ids rows) ≡ false) × IsKeyed rows

-- Row by row: the same, or one step further.
abbrev pub Moves : List TransactionalOutbox → List TransactionalOutbox → Type 0
Moves [] [] = Unit
Moves [] (row' ∷ rows') = ⊥
Moves (row ∷ rows) [] = ⊥
Moves (row ∷ rows) (row' ∷ rows') = ((row' ≡ row) ⊎ ((n : ℕ) × Step n row row')) × Moves rows rows'

pub rows_rest : (rows : List TransactionalOutbox) → Moves rows rows
rows_rest [] = tt
rows_rest (row ∷ rows) = (inl refl, rows_rest rows)

put_absent :
    (row' : TransactionalOutbox) (rows : List TransactionalOutbox)
    → elem row'.id (ids rows) ≡ false
    → put_outbox row' rows ≡ rows
put_absent row' [] h = refl
put_absent row' (r ∷ rows) h = ground (arith, put_absent row' rows)

replaced :
    (rows : List TransactionalOutbox) (row row' : TransactionalOutbox) (n : ℕ)
    → IsKeyed rows
    → scalar (λ r. r.id == row'.id) rows ≡ some row
    → Step n row row'
    → Moves rows (put_outbox row' rows)
replaced [] row row' n keyed found step = tt
replaced (r ∷ rows) row row' n keyed found step = elim (Bool-cases (r.id == row'.id)) [
  | inl e ↦
      let same : r ≡ row = ground arith in
      let absent : elem row'.id (ids rows) ≡ false = rw (==→eq r.id row'.id e) at keyed.0 in
      rw (e, same, put_absent row' rows absent) (inr (n, step), rows_rest rows)
  | inr e ↦ rw e (inl refl, replaced rows row row' n keyed.1 (rw e at found) step)
]

finalize_row-id :
    (message_id : Option Text) (failure : Option Failure) (now : ℕ) (outcome : Delivery)
    (row row' : TransactionalOutbox)
    → finalize_row message_id failure now row ≡ ok (outcome, row')
    → row'.id ≡ row.id
unfolding finalize_row
finalize_row-id message_id failure now outcome row row' e = ground arith

never_skipped :
    (message_id : Option Text) (failure : Option Failure) (now : ℕ) (row row' : TransactionalOutbox)
    → finalize_row message_id failure now row ≡ ok (skipped, row')
    → ⊥
unfolding finalize_row
never_skipped message_id failure now row row' e = ground arith

recorded :
    (r : Result (Delivery × TransactionalOutbox)) (db db' : Db) (outcome : Delivery)
    → ◌>>=◌ {B = Delivery × Db} r (λ p. ok (p.0, record db { outbox = put_outbox p.1 db.outbox }))
      ≡ ok (outcome, db')
    → (row' : TransactionalOutbox) × (r ≡ ok (outcome, row'))
      × (db' ≡ record db { outbox = put_outbox row' db.outbox })
recorded (err e) db db' outcome h = cc
recorded (ok (o, row')) db db' outcome h = (row', ground arith, ground arith)

held_recorded :
    (message_id : Option Text) (failure : Option Failure) (clock : Datetime)
    (row : TransactionalOutbox) (db db' : Db) (outcome : Delivery)
    → finalize_held message_id failure clock row db ≡ ok (outcome, db')
    → (row' : TransactionalOutbox) × (now : ℕ) × (finalize_row message_id failure now row
        ≡ ok (outcome, row'))
      × (db' ≡ record db { outbox = put_outbox row' db.outbox })
held_recorded message_id failure (naive now) row db db' outcome h = cc
held_recorded message_id failure (aware now) row db db' outcome h =
    let (row', e, left) = recorded (finalize_row message_id failure now row) db db' outcome h in
    (row', now, e, left)

-- What a recorded delivery did.
finalize_result :
    (outbox_id : ℕ) (worker_id : Text) (message_id : Option Text) (failure : Option Failure)
    (clock : Datetime) (db db' : Db) (outcome : Delivery)
    → finalize_delivery outbox_id worker_id message_id failure clock db ≡ ok (outcome, db')
    → ((outcome ≡ skipped) × (db' ≡ db))
      ⊎ ((row : TransactionalOutbox) × (row' : TransactionalOutbox) × (now : ℕ) × (scalar
              (λ r. r.id == outbox_id)
              db.outbox
            ≡ some row)
          × (is_held_by worker_id row ≡ true)
          × (finalize_row message_id failure now row ≡ ok (outcome, row'))
          × (db' ≡ record db { outbox = put_outbox row' db.outbox }))
unfolding finalize_delivery
finalize_result outbox_id worker_id message_id failure clock db db' outcome h =
    elim (Option-cases (scalar (λ r. r.id == outbox_id) db.outbox)) [
      | inl e ↦ let nothing = rw e at h in inl (ground arith, ground arith)
      | inr found ↦
          let (row, e) = found in
          let one = rw e at h in
          elim (Bool-cases (is_held_by worker_id row)) [
            | inl held ↦
                let (row', now, made, left) =
                  held_recorded message_id failure clock row db db' outcome (rw held at one) in
                inr (row, row', now, e, held, made, left)
            | inr other ↦ let nothing = rw other at one in inl (ground arith, ground arith)
          ]
    ]

-- Recording a delivery in a table with keys is, for each event, no step or one step of `Step`; and
-- where the answer is `skipped`, nothing is written.
pub finalize-Moves :
    (outbox_id : ℕ) (worker_id : Text) (message_id : Option Text) (failure : Option Failure)
    (clock : Datetime) (db db' : Db) (outcome : Delivery)
    → IsKeyed db.outbox
    → finalize_delivery outbox_id worker_id message_id failure clock db ≡ ok (outcome, db')
    → Moves db.outbox db'.outbox × (outcome ≡ skipped → db' ≡ db)
finalize-Moves outbox_id worker_id message_id failure clock db db' outcome keyed h =
    elim (finalize_result outbox_id worker_id message_id failure clock db db' outcome h) [
      | inl nothing ↦ (rw nothing.1 (rows_rest db.outbox), λ _. nothing.1)
      | inr done ↦
          let (row, row', now, found, held, made, left) = done in
          let same = finalize_row-id message_id failure now outcome row row' made in
          let key =
            ==→eq row.id outbox_id (scalar_sound (λ r. r.id == outbox_id) row db.outbox found) in
          (
            rw left (
                replaced db.outbox row row' 1 keyed (rw (same ∙ key) found)
                  (finalizes worker_id message_id failure now outcome held made)),
            λ e. absurd (never_skipped message_id failure now row row' (rw e at made)),
          )
    ]
