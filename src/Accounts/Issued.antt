-- ===== src/Accounts/Issued.antt =====
-- Issuing succeeds for a current user, and the token that it issues can be consumed.
use buddy_web_ver.Base.{
  ℕ, ◌+◌, ◌<◌, ◌≡◌, refl, sym, subst, inl, inr, Bool, false, ◌&&◌, ◌||◌, some, List, [], ◌∷◌, ◌==◌,
  arith, length, scalar, any, All, text_eq, text_eq_refl, Option-cases,
}
use buddy_web_ver.Errors.{ok}
use buddy_web_ver.Time.{aware}
use buddy_web_ver.Text.{Text}
use buddy_web_ver.Base64.{IsByte, urlsafe_b64encode}
use buddy_web_ver.Models.User.{User}
use buddy_web_ver.Models.Account.{EmailVerificationToken}
use buddy_web_ver.Db.{Db, lift, read, ◌>>=◌}
use buddy_web_ver.Accounts.Verification.{
  email_verification_token_bytes, email_verification_token_ttl, IssuedEmailVerificationToken,
  digest_random_bytes, digest_email_verification_token, current_user, lock_current_user, is_open,
  put, token_clashes, insert_token, open_token, supersede, is_unfit, new_token,
  issue_email_verification_token, consume_email_verification_token,
}
use buddy_web_ver.Accounts.Issue.{decode_token-encode}
use buddy_web_ver.Accounts.Superseding.{
  OneOpen, superseded, superseded_closed, superseded-OneOpen, superseded_lacks,
}

any_three :
    (p q r : EmailVerificationToken → Bool) (ts : List EmailVerificationToken)
    → any p ts ≡ false
    → any q ts ≡ false
    → any r ts ≡ false
    → any (λ t. p t || q t || r t) ts ≡ false
any_three p q r [] h k l = refl
any_three p q r (t ∷ ts) h k l = ground (arith, any_three p q r ts)

supersedes :
    (at user_id : ℕ) (db : Db)
    → supersede at (open_token user_id db.verification_tokens) db
      ≡ ok (tt, record db { verification_tokens = superseded at user_id db.verification_tokens })
supersedes at user_id db = elim (Option-cases (open_token user_id db.verification_tokens)) [
  | inl e ↦ rw (e, superseded) refl
  | inr (t, e) ↦ rw (e, superseded) refl
]

-- A consumption that succeeds, from the rows that it finds.
consumes :
    (sha256 : List ℕ → List ℕ) (token : Text) (now : ℕ) (digest : List ℕ)
    (candidate t : EmailVerificationToken) (u : User) (db : Db)
    → digest_email_verification_token sha256 token ≡ ok digest
    → scalar (λ t. text_eq t.token_digest digest) db.verification_tokens ≡ some candidate
    → lock_current_user candidate.user_id db ≡ ok u
    → scalar (λ t. t.id == candidate.id) db.verification_tokens ≡ some t
    → is_unfit u digest now t ≡ false
    → consume_email_verification_token sha256 token (aware now) db
      ≡ ok (
        record { user_id = u.id; email_snapshot = t.email_snapshot; consumed_at = now },
        record db {
          verification_tokens = put (record t { consumed_at = some now }) db.verification_tokens;
        },
      )
unfolding consume_email_verification_token
consumes sha256 token now digest candidate t u db digested found locked again fit =
    rw (digested, ◌>>=◌, lift, read, found, locked, again, fit) refl

locked_key :
    (n : ℕ) (u : User) (us : List User)
    → current_user (scalar (λ x. x.id == n) us) ≡ ok u
    → u.id ≡ n
locked_key n u [] h = cc
locked_key n u (x ∷ xs) h = ground (arith, locked_key n u xs)

module _ (sha256 : List ℕ → List ℕ) (new_id user_id at : ℕ) (entropy : List ℕ) (db : Db) (u : User)
    (current : lock_current_user user_id db ≡ ok u)
    (enough : length entropy ≡ email_verification_token_bytes)
    (one : OneOpen db.verification_tokens)
    (new_key : any (λ x. x.id == new_id) db.verification_tokens ≡ false)
    (new_digest : any
        (λ x. text_eq x.token_digest (digest_random_bytes sha256 entropy))
        db.verification_tokens
      ≡ false) where
  abbrev issued : IssuedEmailVerificationToken
  issued = record {
    token_id = new_id;
    token = urlsafe_b64encode entropy;
    expires_at = at + email_verification_token_ttl;
  }

  abbrev left : List EmailVerificationToken
  left = superseded at u.id db.verification_tokens

  abbrev stored : EmailVerificationToken
  stored = new_token sha256 new_id u entropy at

  abbrev after : Db
  after = record db { verification_tokens = stored ∷ left }

  no_clash : any (token_clashes stored) left ≡ false
  no_clash =
      any_three (λ x. x.id == new_id)
        (λ x. text_eq x.token_digest (digest_random_bytes sha256 entropy))
        (λ x. is_open x && x.user_id == u.id) left
        (superseded_lacks at u.id db.verification_tokens (λ x. x.id == new_id) (λ t. refl) new_key)
        (superseded_lacks at u.id db.verification_tokens
          (λ x. text_eq x.token_digest (digest_random_bytes sha256 entropy)) (λ t. refl) new_digest)
        (superseded_closed at u.id db.verification_tokens one)

  -- Issuing a token never fails for a current user: if users have one open token at most, and the
  -- row's key and the digest of the 32 random bytes are new, then it supersedes the open token of the
  -- user and stores the new one, which no unique index forbids, and users still have one open token
  -- at most.
  pub issue_succeeds :
      (issue_email_verification_token sha256 new_id user_id (aware at) entropy db
        ≡ ok (
          issued,
          record db { verification_tokens = stored ∷ superseded at u.id db.verification_tokens },
        ))
      × OneOpen (stored ∷ superseded at u.id db.verification_tokens)
  unfolding issue_email_verification_token insert_token
  issue_succeeds = (
    rw (current, ◌>>=◌, read, enough, supersedes at u.id db, no_clash) refl,
    (
      superseded_closed at u.id db.verification_tokens one,
      superseded-OneOpen at u.id db.verification_tokens one,
    ),
  )

  owner_current : lock_current_user u.id after ≡ ok u
  unfolding lock_current_user
  owner_current =
      subst (λ (n : ℕ). current_user (scalar (λ x. x.id == n) db.users) ≡ ok u)
        (sym (locked_key user_id u db.users current)) current

  -- The token that was issued can be consumed, once issuing has succeeded, at every time before it
  -- expires: consuming it names the user and the address, and marks the stored row.
  pub issue-consume :
      (now : ℕ)
      → All IsByte entropy
      → now < at + email_verification_token_ttl
      → consume_email_verification_token sha256
          (urlsafe_b64encode entropy)
          (aware now)
          (record db { verification_tokens = stored ∷ superseded at u.id db.verification_tokens })
        ≡ ok (
          record { user_id = u.id; email_snapshot = u.email; consumed_at = now },
          record db {
            verification_tokens =
                put
                  (record stored { consumed_at = some now })
                  (stored ∷ superseded at u.id db.verification_tokens);
          },
        )
  unfolding digest_email_verification_token
  issue-consume now bytes alive =
      let rows = stored ∷ superseded at u.id db.verification_tokens in
      let digest = digest_random_bytes sha256 entropy in
      let fit : is_unfit u digest now stored ≡ false =
        ground (arith, text_eq_refl digest, text_eq_refl u.email) in
      let digested : digest_email_verification_token sha256 (urlsafe_b64encode entropy)
          ≡ ok digest =
        rw (digest_email_verification_token, decode_token-encode entropy bytes enough) refl in
      let found : scalar (λ t. text_eq t.token_digest digest) rows ≡ some stored =
        rw (text_eq_refl digest) refl in
      let again : scalar (λ t. t.id == stored.id) rows ≡ some stored = ground arith in
      consumes sha256 (urlsafe_b64encode entropy) now digest stored stored u after digested found
        owner_current again fit
