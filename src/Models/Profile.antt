-- ===== src/Models/Profile.antt =====
-- The student profile and its photos (apps/api/app/models/profile.py).
use buddy_web_ver.Base.{ℕ, Bool, true, false, Option, List}
use buddy_web_ver.Text.{Text}

pub data StudentType : Type 0 where
  vietnamese international : StudentType

-- One slot of the weekly availability: ISO weekday 1 to 7, and minutes 0 to 1440 of that day.
pub record WeeklyAvailabilitySlot : Type 0 where
  pub weekday : ℕ
  pub start_minute : ℕ
  pub end_minute : ℕ

pub record WeeklyAvailability : Type 0 where
  pub timezone : Text
  pub slots : List WeeklyAvailabilitySlot

pub record StudentProfile : Type 0 where
  pub id : ℕ
  pub user_id : ℕ
  pub full_name : Option Text
  pub student_type : Option StudentType
  pub major : Option Text
  pub availability : Option WeeklyAvailability
  pub matching_opt_in : Bool
  pub onboarding_completed_at : Option ℕ
  pub deleted_at : Option ℕ

pub record ProfilePhoto : Type 0 where
  pub id : ℕ
  pub profile_id : ℕ
  pub is_avatar : Bool
  pub is_ready : Bool
  pub deleted_at : Option ℕ

-- `left is right` on student types.
abbrev pub type_is : StudentType → StudentType → Bool
type_is vietnamese vietnamese = true
type_is international international = true
type_is _ _ = false
