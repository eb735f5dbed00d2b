-- ===== src/Accounts/Consumption.antt =====
-- A verification token that was consumed.
use buddy_web_ver.Base.{
  ℕ, ◌≡◌, inl, inr, true, false, some, List, [], ◌∷◌, ◌==◌, arith, scalar, text_eq, Bool-cases,
}
use buddy_web_ver.Errors.{verification_token_error, Result, ok, or_raise, or_raise_inv}
use buddy_web_ver.Time.{Datetime, utc_now}
use buddy_web_ver.Text.{Text}
use buddy_web_ver.Models.User.{User}
use buddy_web_ver.Models.Account.{EmailVerificationToken}
use buddy_web_ver.Db.{
  Db, Session, pure, lift, guard, read, lift_then, read_then, err≢ok, ◌>>=◌, ◌>>◌,
}
use buddy_web_ver.Accounts.Verification.{
  ConsumedEmailVerificationToken, digest_email_verification_token, lock_current_user, put,
  save_token, is_unfit, consume_email_verification_token,
}

-- The steps of a consumption that succeeded.
pub record Consumed (sha256 : List ℕ → List ℕ) (token : Text) (clock : Datetime) (db db' : Db)
    (c : ConsumedEmailVerificationToken) : Type 0 where
  pub digest : List ℕ
  pub candidate : EmailVerificationToken
  pub owner : User
  pub stored : EmailVerificationToken
  pub at : ℕ
  pub digested : digest_email_verification_token sha256 token ≡ ok digest
  pub found : scalar (λ t. text_eq t.token_digest digest) db.verification_tokens ≡ some candidate
  pub locked : lock_current_user candidate.user_id db ≡ ok owner
  pub again : scalar (λ t. t.id == candidate.id) db.verification_tokens ≡ some stored
  pub is_at : utc_now clock ≡ ok at
  pub fit : is_unfit owner digest at stored ≡ false
  pub wrote : db' ≡ record db {
    verification_tokens = put (record stored { consumed_at = some at }) db.verification_tokens;
  }
  pub receipt :
      c ≡ record { user_id = owner.id; email_snapshot = stored.email_snapshot; consumed_at = at }

parts :
    (a c : ConsumedEmailVerificationToken) (d db' : Db)
    → ◌≡◌ {A = Result (ConsumedEmailVerificationToken × Db)} (ok (a, d)) (ok (c, db'))
    → (c ≡ a) × (db' ≡ d)
parts a c d db' h = ground arith

-- The last steps: the test of the stored row, and its update.
abbrev finish : List ℕ → User → EmailVerificationToken → ℕ → Session ConsumedEmailVerificationToken
finish digest u stored at =
    guard (is_unfit u digest at stored) verification_token_error
    >> (save_token (record stored { consumed_at = some at })
        >> pure
            (record { user_id = u.id; email_snapshot = stored.email_snapshot; consumed_at = at }))

finished :
    (u : User) (digest : List ℕ) (at : ℕ) (stored : EmailVerificationToken) (db db' : Db)
    (c : ConsumedEmailVerificationToken)
    → finish digest u stored at db ≡ ok (c, db')
    → (is_unfit u digest at stored ≡ false)
      × (c ≡ record { user_id = u.id; email_snapshot = stored.email_snapshot; consumed_at = at })
      × (db' ≡ record db {
        verification_tokens = put (record stored { consumed_at = some at }) db.verification_tokens;
      })
finished u digest at stored db db' c h = elim (Bool-cases (is_unfit u digest at stored)) [
  | inl e ↦ let wrong = rw (e, ◌>>=◌) at h in absurd (err≢ok wrong)
  | inr e ↦
      let left = rw (e, ◌>>=◌) at h in
      let (is_receipt, wrote) = parts _ c _ db' left in (e, is_receipt, wrote)
]

module _ (sha256 : List ℕ → List ℕ) (token : Text) (clock : Datetime) (db db' : Db)
    (c : ConsumedEmailVerificationToken)
    (h : consume_email_verification_token sha256 token clock db ≡ ok (c, db')) where
  pub consumed : Consumed sha256 token clock db db' c
  unfolding consume_email_verification_token
  consumed =
      let by_digest : List ℕ → Db → Result EmailVerificationToken = λ digest db.
        or_raise (scalar (λ t. text_eq t.token_digest digest) db.verification_tokens)
          verification_token_error in
      let by_id : ℕ → Db → Result EmailVerificationToken = λ id db.
        or_raise (scalar (λ t. t.id == id) db.verification_tokens) verification_token_error in
      let (digest, digested, h1) =
        lift_then (digest_email_verification_token sha256 token)
          (λ d. read (by_digest d) >>= λ k. read (lock_current_user k.user_id) >>= λ u.
            read (by_id k.id) >>= λ s. lift (utc_now clock) >>= finish d u s)
          db db' c h in
      let (candidate, found, h2) =
        read_then (by_digest digest)
          (λ k. read (lock_current_user k.user_id) >>= λ u.
            read (by_id k.id) >>= λ s. lift (utc_now clock) >>= finish digest u s)
          db db' c h1 in
      let (owner, locked, h3) =
        read_then (lock_current_user candidate.user_id)
          (λ u. read (by_id candidate.id) >>= λ s. lift (utc_now clock) >>= finish digest u s) db
          db' c h2 in
      let (stored, again, h4) =
        read_then (by_id candidate.id) (λ s. lift (utc_now clock) >>= finish digest owner s) db db'
          c h3 in
      let (at, is_at, h5) = lift_then (utc_now clock) (finish digest owner stored) db db' c h4 in
      let (fit, is_receipt, wrote) = finished owner digest at stored db db' c h5 in
      record {
        digest = digest;
        candidate = candidate;
        owner = owner;
        stored = stored;
        at = at;
        digested = digested;
        found = or_raise_inv _ verification_token_error candidate found;
        locked = locked;
        again = or_raise_inv _ verification_token_error stored again;
        is_at = is_at;
        fit = fit;
        wrote = wrote;
        receipt = is_receipt;
      }

-- A row that was found by its digest, and that its key leads to again, is found by its digest when it
-- is updated.
pub digest_again :
    (digest : List ℕ) (c s s' : EmailVerificationToken) (ts : List EmailVerificationToken)
    → scalar (λ t. text_eq t.token_digest digest) ts ≡ some c
    → scalar (λ t. t.id == c.id) ts ≡ some s
    → text_eq s.token_digest digest ≡ true
    → s'.id ≡ c.id
    → text_eq s'.token_digest digest ≡ true
    → scalar (λ t. text_eq t.token_digest digest) (put s' ts) ≡ some s'
digest_again digest c s s' [] h k e e' d' = cc
digest_again digest c s s' (x ∷ xs) h k e e' d' = ground (arith, digest_again digest c s s' xs)

pub key_again :
    (n : ℕ) (s s' : EmailVerificationToken) (ts : List EmailVerificationToken)
    → scalar (λ t. t.id == n) ts ≡ some s
    → s'.id ≡ n
    → scalar (λ t. t.id == n) (put s' ts) ≡ some s'
key_again n s s' [] h e = cc
key_again n s s' (x ∷ xs) h e = ground (arith, key_again n s s' xs)

pub found_key :
    (n : ℕ) (s : EmailVerificationToken) (ts : List EmailVerificationToken)
    → scalar (λ t. t.id == n) ts ≡ some s
    → s.id ≡ n
found_key n s [] h = cc
found_key n s (x ∷ xs) h = ground (arith, found_key n s xs)
