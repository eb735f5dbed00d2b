-- ===== src/Models/User.antt =====
-- The account row, as far as the Buddy services read it (apps/api/app/models/user.py).
use buddy_web_ver.Base.{ℕ, Bool, true, false, Option, is_some}
use buddy_web_ver.Text.{Text}

pub data UserRole : Type 0 where
  user admin : UserRole

pub record User : Type 0 where
  pub id : ℕ
  pub email : Text
  pub role : UserRole
  pub is_active : Bool
  pub email_verified : Bool
  pub email_verified_at : Option ℕ
  pub deleted_at : Option ℕ
  pub semester_id : Option ℕ

-- `role is UserRole.USER`
abbrev pub is_user_role : UserRole → Bool
is_user_role user = true
is_user_role admin = false

-- The property `is_current_email_verified`.
unfoldable pub is_current_email_verified : User → Bool
is_current_email_verified u = elim u.role [
  | admin ↦ u.email_verified
  | user ↦ is_some u.email_verified_at
]
