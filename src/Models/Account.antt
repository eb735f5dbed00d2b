-- ===== src/Models/Account.antt =====
-- Refresh-token families and one-use verification tokens (apps/api/app/models/refresh_session.py and
-- email_verification.py).
use buddy_web_ver.Base.{ℕ, Option, List}
use buddy_web_ver.Text.{Text}

pub record RefreshSession : Type 0 where
  pub id : ℕ
  pub user_id : ℕ
  pub refresh_token_id : ℕ
  pub expires_at : ℕ
  pub revoked_at : Option ℕ
  pub deleted_at : Option ℕ

pub record EmailVerificationToken : Type 0 where
  pub id : ℕ
  pub user_id : ℕ
  pub token_digest : List ℕ
  pub email_snapshot : Text
  pub expires_at : ℕ
  pub consumed_at : Option ℕ
  pub superseded_at : Option ℕ
  pub created_at : ℕ
  pub deleted_at : Option ℕ
