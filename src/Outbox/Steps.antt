-- ===== src/Outbox/Steps.antt =====
-- The life of one event: claims and recorded deliveries as a step relation, the invariant that they
-- keep, and the end after at most five deliveries.
use buddy_web_ver.Base.{
  ℕ, suc, ◌+◌, ◌*◌, ◌^◌, ◌≤◌, ◌<◌, ◌≡◌, Bool, true, false, ◌||◌, Option, none, some, arith, is_some,
}
use buddy_web_ver.Errors.{ok}
use buddy_web_ver.Time.{minute}
use buddy_web_ver.Outbox.Delay.{delay_small}
use buddy_web_ver.Text.{Text}
use buddy_web_ver.Models.Outbox.{TransactionalOutbox, IsStored}
use buddy_web_ver.Outbox.Claim.{is_ready, lease_row}
use buddy_web_ver.Outbox.Finalize.{
  Failure, Delivery, finalize_row, is_held_by, max_delivery_attempts, retry,
}

-- The event has been sent or has failed for good.
abbrev pub is_finished : TransactionalOutbox → Bool
is_finished row = is_some row.sent_at || is_some row.failed_at

-- A transition of one event; the number counts the deliveries recorded, 0 or 1.
pub data Step : ℕ → TransactionalOutbox → TransactionalOutbox → Type 0 where
  claims :
      {row : TransactionalOutbox} (worker_id : Text) (now : ℕ)
      → is_ready now row ≡ true
      → Step 0 row (lease_row worker_id now row)
  finalizes :
      {row row' : TransactionalOutbox} (worker_id : Text) (message_id : Option Text)
      (failure : Option Failure) (now : ℕ) (outcome : Delivery)
      → is_held_by worker_id row ≡ true
      → finalize_row message_id failure now row ≡ ok (outcome, row')
      → Step 1 row row'

pub data Steps : ℕ → TransactionalOutbox → TransactionalOutbox → Type 0 where
  here : {row : TransactionalOutbox} → Steps 0 row row
  next :
      {n m : ℕ} {row row' row'' : TransactionalOutbox}
      → Step n row row'
      → Steps m row' row''
      → Steps (n + m) row row''

-- The table's constraints hold, and an event that is not finished has attempts left.
pub record IsDeliverable (row : TransactionalOutbox) : Type 0 where
  pub stored : IsStored row
  pub attempts_within : row.attempts ≤ max_delivery_attempts
  pub attempts_left : is_finished row ≡ false → row.attempts < max_delivery_attempts

claims-IsDeliverable :
    (worker_id : Text) (now : ℕ) (row : TransactionalOutbox)
    → is_ready now row ≡ true
    → IsDeliverable row
    → IsDeliverable (lease_row worker_id now row)
claims-IsDeliverable worker_id now row r h = record {
  stored = ground arith;
  attempts_within = h.attempts_within;
  attempts_left = ground arith;
}

finalizes-IsDeliverable :
    (worker_id : Text) (message_id : Option Text) (failure : Option Failure) (now : ℕ)
    (outcome : Delivery) (row row' : TransactionalOutbox)
    → is_held_by worker_id row ≡ true
    → finalize_row message_id failure now row ≡ ok (outcome, row')
    → IsDeliverable row
    → IsDeliverable row' × (row'.attempts ≡ suc row.attempts)
unfolding finalize_row
finalizes-IsDeliverable worker_id message_id failure now outcome row row' held e h = ground arith

move-IsDeliverable :
    {n : ℕ} {row row' : TransactionalOutbox}
    → Step n row row'
    → IsDeliverable row
    → IsDeliverable row' × (row'.attempts ≡ row.attempts + n)
move-IsDeliverable (claims {row} worker_id now r) h =
    (claims-IsDeliverable worker_id now row r h, omega arith)
move-IsDeliverable (finalizes {row} {row'} worker_id message_id failure now outcome held e) h =
    let (kept, counted) =
      finalizes-IsDeliverable worker_id message_id failure now outcome row row' held e h in
    (kept, omega (arith, counted))

pub steps-IsDeliverable :
    {n : ℕ} {row row' : TransactionalOutbox}
    → Steps n row row'
    → IsDeliverable row
    → IsDeliverable row' × (row'.attempts ≡ row.attempts + n)
steps-IsDeliverable here h = (h, omega arith)
steps-IsDeliverable (next first rest) h =
    let (kept, counted) = move-IsDeliverable first h in
    let (kept', counted') = steps-IsDeliverable rest kept in
    (kept', omega (arith, counted, counted'))

-- An event that has been sent or has failed makes no further step: no worker claims it, and no
-- delivery of it is recorded.
pub finished_rests :
    {n : ℕ} {row row' : TransactionalOutbox} → is_finished row ≡ true → Step n row row' → ⊥
finished_rests f (claims worker_id now r) = ground arith
finished_rests f (finalizes worker_id message_id failure now outcome held e) = ground arith

-- An event that is enqueued, as far as the outbox goes: stored, never tried and not finished.
pub record IsFresh (row : TransactionalOutbox) : Type 0 where
  pub fresh_stored : IsStored row
  pub untried : row.attempts ≡ 0
  pub unfinished : is_finished row ≡ false

-- However workers claim a fresh event and whatever their deliveries give, the constraints of the
-- table hold; at most five deliveries are recorded, each is counted in `attempts`, and after the
-- fifth the event is finished.
pub deliveries_bounded :
    (n : ℕ) (row row' : TransactionalOutbox)
    → IsFresh row
    → Steps n row row'
    → IsStored row'
      × (n ≤ max_delivery_attempts)
      × (row'.attempts ≡ n)
      × (n ≡ max_delivery_attempts → is_finished row' ≡ true)
deliveries_bounded n row row' fresh steps =
    let deliverable : IsDeliverable row = record {
      stored = fresh.fresh_stored;
      attempts_within = omega (arith, fresh.untried);
      attempts_left = λ u. omega (arith, fresh.untried);
    } in
    let (kept, counted) = steps-IsDeliverable steps deliverable in
    (
      kept.stored,
      omega (arith, kept.attempts_within, counted, fresh.untried),
      omega (arith, counted, fresh.untried),
      λ e. ground (arith, kept.attempts_left, counted, fresh.untried),
    )

-- A delivery that is to be retried was one of the first four, and the event is ready again one, two,
-- four or eight minutes later, by the number of deliveries before: the bound of an hour is never
-- reached.
pub retry_schedule :
    (message_id : Option Text) (failure : Option Failure) (now : ℕ) (row row' : TransactionalOutbox)
    → finalize_row message_id failure now row ≡ ok (retry, row')
    → (row'.next_attempt_at ≡ now + 2 ^ row.attempts * minute)
      × (row.attempts ≤ 3)
      × (is_finished row' ≡ is_finished row)
unfolding finalize_row
retry_schedule none none now row row' e = cc
retry_schedule (some message_id) none now row row' e = cc
retry_schedule message_id (some failure) now row row' e = ground (arith, delay_small row.attempts)
