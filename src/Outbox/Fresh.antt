-- ===== src/Outbox/Fresh.antt =====
-- What enqueuing makes: a row of the stripped identifiers that meets the table's constraints, never
-- tried and not finished.
use buddy_web_ver.Base.{
  ℕ, suc, ◌+◌, ◌≤◌, ◌≡◌, refl, Bool, true, not, some, [], ◌∷◌, map, arith, any, ◌==◌, length,
  Option-cases, inl, inr,
}
use buddy_web_ver.Errors.{Result, ok, err, or_raise, outbox_validation}
use buddy_web_ver.Time.{Datetime}
use buddy_web_ver.Text.{Text, strip, btrim, append_text}
use buddy_web_ver.Text.Strip.{btrim-strip, strip_with-nonempty, length-strip_with-le}
use buddy_web_ver.Accounts.Email.{
  canonicalize_email, before_at, after_at, ascii_fold, count_character,
}
use buddy_web_ver.Models.Outbox.{TransactionalOutbox, trimmed_length_within}
use buddy_web_ver.Outbox.Event.{EmailEvent, outbox_row, validate_identifier}
use buddy_web_ver.Outbox.Steps.{IsFresh}

-- Whether what was accepted has a length that its column allows.
abbrev ok_within : ℕ → Result Text → Bool
ok_within maximum (ok value) = trimmed_length_within maximum value
ok_within maximum (err e) = true

identifier-within :
    (maximum : ℕ) (value : Text) → ok_within maximum (validate_identifier maximum value) ≡ true
unfolding validate_identifier
identifier-within maximum value = ground (arith, btrim-strip value)

length-append_text : (xs ys : Text) → length (append_text xs ys) ≡ length xs + length ys
length-append_text [] ys = omega arith
length-append_text (x ∷ xs) ys = omega (arith, length-append_text xs ys)

length-fold : (xs : Text) → length (map ascii_fold xs) ≡ length xs
length-fold [] = refl
length-fold (x ∷ xs) = omega (arith, length-fold xs)

-- The two parts and the `@` are as long as the whole.
length-parts :
    (xs : Text)
    → 1 ≤ count_character 64 xs
    → length (before_at xs) + suc (length (after_at xs)) ≡ length xs
length-parts [] h = omega arith
length-parts (x ∷ xs) h = ground (arith, length-parts xs)

append_text-any :
    (p : ℕ → Bool) (xs : Text) (y : ℕ) (ys : Text)
    → p y ≡ true
    → any p (append_text xs (y ∷ ys)) ≡ true
append_text-any p [] y ys h = ground arith
append_text-any p (x ∷ xs) y ys h = ground (arith, append_text-any p xs y ys h)

-- The canonical address in its parts.
canonical_parts :
    (email canonical : Text)
    → canonicalize_email email ≡ some canonical
    → let candidate = strip email in
      (canonical
        ≡ append_text
            (map ascii_fold (before_at candidate))
            (64 ∷ map ascii_fold (after_at candidate)))
      × (count_character 64 candidate ≡ 1)
      × (length candidate ≤ 254)
unfolding canonicalize_email
canonical_parts email canonical h = (ground arith, ground arith, ground arith)

-- A canonical address has a length that its column allows.
email-within :
    (email canonical : Text)
    → canonicalize_email email ≡ some canonical
    → trimmed_length_within 320 canonical ≡ true
unfolding btrim
email-within email canonical h =
    let candidate = strip email in
    let (parts, once, short) = canonical_parts email canonical h in
    let long =
      strip_with-nonempty (λ c. c == 32) canonical
        (rw parts (
          append_text-any (λ c. not (c == 32)) (map ascii_fold (before_at candidate)) 64
            (map ascii_fold (after_at candidate)) refl)) in
    let total : length canonical ≡ length candidate = rw parts (
      omega (
        arith,
        length-append_text (map ascii_fold (before_at candidate))
            (64 ∷ map ascii_fold (after_at candidate)),
        length-fold (before_at candidate),
        length-fold (after_at candidate),
        length-parts candidate (omega (arith, once)),
      )) in
    ground (arith, long, total, short, length-strip_with-le (λ c. c == 32) canonical)

emails-within :
    (email : Text) → ok_within 320 (or_raise (canonicalize_email email) outbox_validation) ≡ true
emails-within email = elim (Option-cases (canonicalize_email email)) [
  | inl e ↦ rw e refl
  | inr found ↦ let (canonical, e) = found in rw e (email-within email canonical e)
]

-- An identifier that is accepted is the stripped one.
identifier_is :
    (maximum : ℕ) (value name : Text)
    → validate_identifier maximum value ≡ ok name
    → name ≡ strip value
unfolding validate_identifier
identifier_is maximum value name h = ground arith

-- The parts of a row that was made.
row_parts :
    (new_id : ℕ) (event : EmailEvent) (clock : Datetime) (row : TransactionalOutbox)
    → outbox_row new_id event clock ≡ ok row
    → (validate_identifier 100 event.event_type ≡ ok row.event_type)
      × (validate_identifier 256 event.idempotency_key ≡ ok row.idempotency_key)
      × (canonicalize_email event.recipient_email ≡ some row.recipient_email)
unfolding outbox_row
row_parts new_id event clock row h = (ground arith, ground arith, ground arith)

row-IsFresh :
    (new_id : ℕ) (event : EmailEvent) (clock : Datetime) (row : TransactionalOutbox)
    → outbox_row new_id event clock ≡ ok row
    → IsFresh row
unfolding outbox_row
row-IsFresh new_id event clock row h = ground (
  arith,
  identifier-within 100 event.event_type,
  identifier-within 256 event.idempotency_key,
  emails-within event.recipient_email,
)

-- Enqueuing makes a row that meets the table's constraints, with no attempt made and no end reached;
-- its event type and its idempotency key are those of the event, stripped of white space, and
-- its address is the canonical form of the event's.
pub outbox_row-IsFresh :
    (new_id : ℕ) (event : EmailEvent) (clock : Datetime) (row : TransactionalOutbox)
    → outbox_row new_id event clock ≡ ok row
    → IsFresh row
      × (row.event_type ≡ strip event.event_type)
      × (row.idempotency_key ≡ strip event.idempotency_key)
      × (canonicalize_email event.recipient_email ≡ some row.recipient_email)
outbox_row-IsFresh new_id event clock row h =
    let (of_type, of_key, to) = row_parts new_id event clock row h in
    (
      row-IsFresh new_id event clock row h,
      identifier_is 100 event.event_type row.event_type of_type,
      identifier_is 256 event.idempotency_key row.idempotency_key of_key,
      to,
    )

-- The row is addressed as the event is.
pub row_event :
    (new_id : ℕ) (event : EmailEvent) (clock : Datetime) (row : TransactionalOutbox)
    → outbox_row new_id event clock ≡ ok row
    → (row.aggregate_id ≡ event.aggregate_id) × (row.recipient_user_id ≡ event.recipient_user_id)
unfolding outbox_row
row_event new_id event clock row h = (ground arith, ground arith)
