-- ===== src/Accounts/OneUse.antt =====
-- A verification token is consumed once.
use buddy_web_ver.Base.{
  ℕ, ◌≡◌, refl, ap, sym, subst, inl, inr, true, false, Option, none, some, List, ◌==◌, is_some,
  arith, scalar, text_eq,
}
use buddy_web_ver.Errors.{Exception, verification_token_error, ok, err, Result-cases}
use buddy_web_ver.Time.{Datetime, aware}
use buddy_web_ver.Text.{Text}
use buddy_web_ver.Models.User.{User}
use buddy_web_ver.Models.Account.{EmailVerificationToken}
use buddy_web_ver.Db.{Db, lift, read, ◌>>=◌}
use buddy_web_ver.Accounts.Verification.{
  ConsumedEmailVerificationToken, digest_email_verification_token, current_user, lock_current_user,
  is_unfit, consume_email_verification_token,
}
use buddy_web_ver.Accounts.Consumption.{consumed, digest_again, key_again, found_key}

lock_error :
    (o : Option User) (e : Exception) → current_user o ≡ err e → e ≡ verification_token_error
lock_error none e h = ground arith
lock_error (some u) e h = ground arith

-- A consumption that finds a row which was consumed is refused, whatever its owner.
refuses_consumed :
    (sha256 : List ℕ → List ℕ) (token : Text) (at : ℕ) (db : Db) (digest : List ℕ)
    (t : EmailVerificationToken)
    → digest_email_verification_token sha256 token ≡ ok digest
    → scalar (λ t. text_eq t.token_digest digest) db.verification_tokens ≡ some t
    → scalar (λ x. x.id == t.id) db.verification_tokens ≡ some t
    → is_some t.consumed_at ≡ true
    → consume_email_verification_token sha256 token (aware at) db ≡ err verification_token_error
unfolding consume_email_verification_token lock_current_user
refuses_consumed sha256 token at db digest t digested found again used =
    elim (Result-cases (lock_current_user t.user_id db)) [
      | inl (u, is_u) ↦
          let unfit : is_unfit u digest at t ≡ true = ground arith in
          rw (digested, ◌>>=◌, lift, read, found, is_u, again, unfit) refl
      | inr (e, is_e) ↦
          rw (digested, ◌>>=◌, lift, read, found, is_e)
            (ap err (lock_error (scalar (λ u. u.id == t.user_id) db.users) e is_e))
    ]

fit_digest :
    (u : User) (digest : List ℕ) (at : ℕ) (t : EmailVerificationToken)
    → is_unfit u digest at t ≡ false
    → text_eq t.token_digest digest ≡ true
fit_digest u digest at t h = ground arith

module _ (sha256 : List ℕ → List ℕ) (token : Text) (clock : Datetime) (db db' : Db)
    (c : ConsumedEmailVerificationToken)
    (h : consume_email_verification_token sha256 token clock db ≡ ok (c, db')) where
  -- A verification token is consumed once: after a consumption that succeeded, the same token is
  -- refused at any time.
  pub consume_twice :
      (at' : ℕ)
      → consume_email_verification_token sha256 token (aware at') db' ≡ err verification_token_error
  consume_twice at' =
      let w = consumed sha256 token clock db db' c h in
      let t : EmailVerificationToken = record w.stored { consumed_at = some w.at } in
      let key = found_key w.candidate.id w.stored db.verification_tokens w.again in
      let same_digest : text_eq w.stored.token_digest w.digest ≡ true =
        fit_digest w.owner w.digest w.at w.stored w.fit in
      let found : scalar (λ t. text_eq t.token_digest w.digest) db'.verification_tokens ≡ some t =
        rw w.wrote (
          digest_again w.digest w.candidate w.stored t db.verification_tokens w.found w.again
            same_digest key same_digest) in
      let again : scalar (λ x. x.id == t.id) db'.verification_tokens ≡ some t = rw w.wrote (
        key_again t.id w.stored t db.verification_tokens
          (subst (λ (n : ℕ). scalar (λ x. x.id == n) db.verification_tokens ≡ some w.stored)
            (sym key) w.again)
          refl) in
      refuses_consumed sha256 token at' db' w.digest t w.digested found again refl
