-- ===== src/Tests/Accounts.antt =====
-- A verification token that is issued and consumed, and the theorems applied to it.
use buddy_web_ver.Base.{ℕ, ◌≡◌, refl, true, none, some, List, [], ◌∷◌, arith, All}
use buddy_web_ver.Errors.{ok, err, verification_token_error}
use buddy_web_ver.Time.{aware}
use buddy_web_ver.Text.{codes}
use buddy_web_ver.Base64.{IsByte, urlsafe_b64encode, b64decode, pad, symbol, symbol_value}
use buddy_web_ver.Models.User.{User, user}
use buddy_web_ver.Models.Account.{EmailVerificationToken}
use buddy_web_ver.Db.{Db}
use buddy_web_ver.Accounts.Verification.{
  IssuedEmailVerificationToken, ConsumedEmailVerificationToken, decode_token, lock_current_user,
  digest_email_verification_token, new_token, put, issue_email_verification_token,
  consume_email_verification_token,
}
use buddy_web_ver.Accounts.Superseding.{OneOpen}
use buddy_web_ver.Accounts.Issued.{issue_succeeds, issue-consume}
use buddy_web_ver.Accounts.OneUse.{consume_twice}
use buddy_web_ver.Tests.Data.{empty_db}

abbrev student : User
student = record {
  id = 1;
  email = codes "a@vgu.edu.vn";
  role = user;
  is_active = true;
  email_verified = true;
  email_verified_at = none;
  deleted_at = none;
  semester_id = some 5;
}

-- In place of SHA-256, the bytes themselves.
abbrev same_bytes : List ℕ → List ℕ
same_bytes bytes = bytes

abbrev entropy : List ℕ
entropy =
    1 ∷ 2 ∷ 3 ∷ 4 ∷ 5 ∷ 6 ∷ 7 ∷ 8 ∷ 9 ∷ 10 ∷ 11 ∷ 12 ∷ 13 ∷ 14 ∷ 15 ∷ 16 ∷ 17 ∷ 18 ∷ 19 ∷ 20 ∷ 21
    ∷ 22 ∷ 23 ∷ 24 ∷ 25 ∷ 26 ∷ 27 ∷ 28 ∷ 29 ∷ 30 ∷ 31 ∷ 255 ∷ []

-- An open token of the user from before.
abbrev old_token : EmailVerificationToken
old_token = record {
  id = 60;
  user_id = 1;
  token_digest = 7 ∷ [];
  email_snapshot = codes "a@vgu.edu.vn";
  expires_at = 900_000_100;
  consumed_at = none;
  superseded_at = none;
  created_at = 100;
  deleted_at = none;
}

abbrev accounts : Db
accounts = record empty_db { users = student ∷ []; verification_tokens = old_token ∷ [] }

abbrev issued_tokens : List EmailVerificationToken
issued_tokens =
    new_token same_bytes 61 student entropy 2000
    ∷ record old_token { superseded_at = some 2000 }
    ∷ []

abbrev issued : IssuedEmailVerificationToken
issued = record { token_id = 61; token = urlsafe_b64encode entropy; expires_at = 900_002_000 }

student_current : lock_current_user 1 accounts ≡ ok student
unfolding lock_current_user
student_current = refl

abbrev stored : EmailVerificationToken
stored = new_token same_bytes 61 student entropy 2000

abbrev consumption : ConsumedEmailVerificationToken
consumption = record { user_id = 1; email_snapshot = codes "a@vgu.edu.vn"; consumed_at = 3000 }

abbrev consumed_tokens : List EmailVerificationToken
consumed_tokens = put (record stored { consumed_at = some 3000 }) issued_tokens

entropy_bytes : All IsByte entropy
entropy_bytes = (
  (omega arith),
  (
    (omega arith),
    (
      (omega arith),
      (
        (omega arith),
        (
          (omega arith),
          (
            (omega arith),
            (
              (omega arith),
              (
                (omega arith),
                (
                  (omega arith),
                  (
                    (omega arith),
                    (
                      (omega arith),
                      (
                        (omega arith),
                        (
                          (omega arith),
                          (
                            (omega arith),
                            (
                              (omega arith),
                              (
                                (omega arith),
                                (
                                  (omega arith),
                                  (
                                    (omega arith),
                                    (
                                      (omega arith),
                                      (
                                        (omega arith),
                                        (
                                          (omega arith),
                                          (
                                            (omega arith),
                                            (
                                              (omega arith),
                                              (
                                                (omega arith),
                                                (
                                                  (omega arith),
                                                  (
                                                    (omega arith),
                                                    (
                                                      (omega arith),
                                                      (
                                                        (omega arith),
                                                        (
                                                          (omega arith),
                                                          (
                                                            (omega arith),
                                                            ((omega arith), ((omega arith), tt)),
                                                          ),
                                                        ),
                                                      ),
                                                    ),
                                                  ),
                                                ),
                                              ),
                                            ),
                                          ),
                                        ),
                                      ),
                                    ),
                                  ),
                                ),
                              ),
                            ),
                          ),
                        ),
                      ),
                    ),
                  ),
                ),
              ),
            ),
          ),
        ),
      ),
    ),
  ),
)

issue_succeeds_example :
    (issue_email_verification_token same_bytes 61 1 (aware 2000) entropy accounts
      ≡ ok (issued, record accounts { verification_tokens = issued_tokens }))
    × OneOpen issued_tokens
issue_succeeds_example =
    issue_succeeds same_bytes 61 1 2000 entropy accounts student student_current refl (refl, tt)
      refl refl

issue-consume_example :
    consume_email_verification_token same_bytes
      (urlsafe_b64encode entropy)
      (aware 3000)
      (record accounts { verification_tokens = issued_tokens })
    ≡ ok (consumption, record accounts { verification_tokens = consumed_tokens })
issue-consume_example =
    issue-consume same_bytes 61 1 2000 entropy accounts student student_current refl (refl, tt) refl
      refl 3000 entropy_bytes (omega arith)

consumption_runs :
    consume_email_verification_token same_bytes
      (urlsafe_b64encode entropy)
      (aware 3000)
      (record accounts { verification_tokens = issued_tokens })
    ≡ ok (consumption, record accounts { verification_tokens = consumed_tokens })
unfolding consume_email_verification_token digest_email_verification_token decode_token
    lock_current_user urlsafe_b64encode b64decode pad symbol symbol_value
consumption_runs = refl

consume_twice_example :
    consume_email_verification_token same_bytes
      (urlsafe_b64encode entropy)
      (aware 4000)
      (record accounts { verification_tokens = consumed_tokens })
    ≡ err verification_token_error
consume_twice_example =
    consume_twice same_bytes (urlsafe_b64encode entropy) (aware 3000)
      (record accounts { verification_tokens = issued_tokens })
      (record accounts { verification_tokens = consumed_tokens }) consumption consumption_runs 4000
