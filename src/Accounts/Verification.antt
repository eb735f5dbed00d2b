-- ===== src/Accounts/Verification.antt =====
-- One-use tokens for e-mail verification (apps/api/app/services/email_verification.py). SHA-256 is a
-- parameter; the random bytes and the key of a new row are arguments.
use buddy_web_ver.Base.{
  ℕ, ◌+◌, ◌*◌, Bool, not, ◌&&◌, ◌||◌, Option, none, some, List, [], ◌∷◌, ◌++◌, leb, ◌==◌,
  if◌then◌else◌, is_none, is_some, length, scalar, any, all, text_eq,
}
use buddy_web_ver.Errors.{
  value_error, Complaint, verification_token_error, unique_violation, Result, ok, err, or_raise,
}
use buddy_web_ver.Time.{Datetime, utc_now, minute}
use buddy_web_ver.Text.{Text, codes}
use buddy_web_ver.Base64.{urlsafe_b64encode, pad, b64decode}
use buddy_web_ver.Models.User.{User, is_user_role}
use buddy_web_ver.Models.Account.{EmailVerificationToken}
use buddy_web_ver.Db.{Db, Session, pure, lift, guard, read, ◌>>=◌, ◌>>◌}

abbrev pub email_verification_token_bytes : ℕ
email_verification_token_bytes = 32

abbrev pub email_verification_token_ttl : ℕ
email_verification_token_ttl = 15 * minute

abbrev pub encoded_token_length : ℕ
encoded_token_length = 43

pub record IssuedEmailVerificationToken : Type 0 where
  pub token_id : ℕ
  pub token : Text
  pub expires_at : ℕ

pub record ConsumedEmailVerificationToken : Type 0 where
  pub user_id : ℕ
  pub email_snapshot : Text
  pub consumed_at : ℕ

pub record ConfirmedEmailVerification : Type 0 where
  pub user_id : ℕ
  pub email_verified_at : ℕ

-- `_BASE64URL_CHARACTERS`
abbrev pub is_base64url : ℕ → Bool
is_base64url c =
    (leb b'A' c && leb c b'Z')
    || (leb b'a' c && leb c b'z')
    || (leb b'0' c && leb c b'9')
    || c == b'-'
    || c == b'_'

abbrev pub checked_bytes : Text → Option (List ℕ) → Result (List ℕ)
checked_bytes token none = err verification_token_error
checked_bytes token (some decoded) =
    if not (length decoded == email_verification_token_bytes)
      || not (text_eq (urlsafe_b64encode decoded) token)
    then err verification_token_error
    else ok decoded

unfoldable pub decode_token : Text → Result (List ℕ)
decode_token token =
    if not (length token == encoded_token_length) || not (all is_base64url token)
    then err verification_token_error
    else checked_bytes token (b64decode (pad token))

abbrev pub digest_purpose : List ℕ
digest_purpose = codes "vgu-buddy-email-verification-token-v1" ++ (0 ∷ [])

-- `_lock_current_user`
abbrev pub current_user : Option User → Result User
current_user none = err verification_token_error
current_user (some u) =
    if not u.is_active || is_some u.deleted_at then err verification_token_error else ok u

unfoldable pub lock_current_user : ℕ → Db → Result User
lock_current_user user_id db = current_user (scalar (λ u. u.id == user_id) db.users)

abbrev pub is_open : EmailVerificationToken → Bool
is_open t = is_none t.consumed_at && is_none t.superseded_at && is_none t.deleted_at

abbrev pub put : EmailVerificationToken → List EmailVerificationToken → List EmailVerificationToken
put t [] = []
put t (x ∷ xs) = if x.id == t.id then t ∷ put t xs else x ∷ put t xs

-- The `INSERT` of a token: its key and its digest must be new, and no open token may be left to its
-- user (`uq_email_verification_tokens_active_user_id`).
abbrev pub token_clashes : EmailVerificationToken → EmailVerificationToken → Bool
token_clashes t x =
    x.id == t.id
    || text_eq x.token_digest t.token_digest
    || (is_open t && is_open x && x.user_id == t.user_id)

unfoldable pub insert_token : EmailVerificationToken → Session (Unit {0})
insert_token t db =
    if any (token_clashes t) db.verification_tokens
    then err unique_violation
    else ok (tt, record db { verification_tokens = t ∷ db.verification_tokens })

abbrev pub save_token : EmailVerificationToken → Session (Unit {0})
save_token t db = ok (tt, record db { verification_tokens = put t db.verification_tokens })

abbrev pub open_token : ℕ → List EmailVerificationToken → Option EmailVerificationToken
open_token user_id = scalar (λ t. t.user_id == user_id && is_open t)

-- `if current_token is not None: current_token.superseded_at = current_time`
abbrev pub supersede : ℕ → Option EmailVerificationToken → Session (Unit {0})
supersede at none = pure tt
supersede at (some t) = save_token (record t { superseded_at = some at })

-- What makes a stored token unfit, after its row is locked.
abbrev pub is_unfit : User → List ℕ → ℕ → EmailVerificationToken → Bool
is_unfit u digest at t =
    not (text_eq t.token_digest digest)
    || not (t.user_id == u.id)
    || is_some t.deleted_at
    || is_some t.consumed_at
    || is_some t.superseded_at
    || leb t.expires_at at
    || not (text_eq t.email_snapshot u.email)

abbrev pub put_user : User → List User → List User
put_user u [] = []
put_user u (x ∷ xs) = if x.id == u.id then u ∷ put_user u xs else x ∷ put_user u xs

abbrev pub save_user : User → Session (Unit {0})
save_user u db = ok (tt, record db { users = put_user u db.users })

-- The user may not be verified, or not under the address of the token.
abbrev pub is_unverifiable : Text → User → Bool
is_unverifiable email u =
    not (is_user_role u.role)
    || not u.is_active
    || is_some u.deleted_at
    || not (text_eq u.email email)
    || is_some u.email_verified_at

module _ (sha256 : List ℕ → List ℕ) where
  abbrev pub digest_random_bytes : List ℕ → List ℕ
  digest_random_bytes bytes = sha256 (digest_purpose ++ bytes)

  unfoldable pub digest_email_verification_token : Text → Result (List ℕ)
  digest_email_verification_token token = elim (decode_token token) [
    | ok bytes ↦ ok (digest_random_bytes bytes)
    | err e ↦ err e
  ]

  abbrev pub new_token : ℕ → User → List ℕ → ℕ → EmailVerificationToken
  new_token new_id u entropy at = record {
    id = new_id;
    user_id = u.id;
    token_digest = digest_random_bytes entropy;
    email_snapshot = u.email;
    expires_at = at + email_verification_token_ttl;
    consumed_at = none;
    superseded_at = none;
    created_at = at;
    deleted_at = none;
  }

  -- The flush writes the update before the insert.
  unfoldable pub issue_email_verification_token :
      ℕ → ℕ → Datetime → List ℕ → Session IssuedEmailVerificationToken
  issue_email_verification_token new_id user_id clock entropy = do
    u ← read (lock_current_user user_id)
    guard (not (length entropy == email_verification_token_bytes))
        (value_error Complaint.wrong_random_bytes)
    at ← lift (utc_now clock)
    (λ db. supersede at (open_token u.id db.verification_tokens) db)
    insert_token (new_token new_id u entropy at)
    pure (record {
      token_id = new_id;
      token = urlsafe_b64encode entropy;
      expires_at = at + email_verification_token_ttl;
    })

  unfoldable pub consume_email_verification_token :
      Text → Datetime → Session ConsumedEmailVerificationToken
  consume_email_verification_token token clock = do
    digest ← lift (digest_email_verification_token token)
    candidate ← read (λ db.
        or_raise (scalar (λ t. text_eq t.token_digest digest) db.verification_tokens)
          verification_token_error)
    u ← read (lock_current_user candidate.user_id)
    stored ← read (λ db.
        or_raise (scalar (λ t. t.id == candidate.id) db.verification_tokens)
          verification_token_error)
    at ← lift (utc_now clock)
    guard (is_unfit u digest at stored) verification_token_error
    save_token (record stored { consumed_at = some at })
    pure (record { user_id = u.id; email_snapshot = stored.email_snapshot; consumed_at = at })

  unfoldable pub confirm_email_verification_token :
      Text → ℕ → Datetime → Session ConfirmedEmailVerification
  confirm_email_verification_token token expected_user_id clock = do
    consumed ← consume_email_verification_token token clock
    guard (not (consumed.user_id == expected_user_id)) verification_token_error
    u ←
        read (λ db.
          or_raise (scalar (λ u. u.id == consumed.user_id) db.users) verification_token_error)
    guard (is_unverifiable consumed.email_snapshot u) verification_token_error
    save_user (record u { email_verified_at = some consumed.consumed_at })
    pure (record { user_id = u.id; email_verified_at = consumed.consumed_at })
