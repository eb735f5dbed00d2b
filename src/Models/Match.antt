-- ===== src/Models/Match.antt =====
-- The Buddy Match, its conversation, and the identity of an unordered pair of users
-- (apps/api/app/models/buddy_match.py, buddy_chat.py).
use buddy_web_ver.Base.{ℕ, ◌≡◌, ◌≢◌, ◌⊎◌, Option, ltb, ◌==◌, if◌then◌else◌, min, max, arith}
use buddy_web_ver.Errors.{Result, ok, err, value_error, Complaint, ◌>>◌, raise_if}

-- ACTIVE is the only state of a match.
pub data MatchStatus : Type 0 where
  active : MatchStatus

pub record BuddyMatch : Type 0 where
  pub id : ℕ
  pub participant_one_user_id : ℕ
  pub participant_two_user_id : ℕ
  pub participant_one_profile_id : ℕ
  pub participant_two_profile_id : ℕ
  pub status : MatchStatus
  pub accepted_invitation_id : ℕ
  pub semester_id : ℕ
  pub score : ℕ
  pub activated_at : ℕ
  pub deleted_at : Option ℕ

pub record BuddyConversation : Type 0 where
  pub id : ℕ
  pub match_id : ℕ
  pub semester_id : ℕ
  pub created_at : ℕ

unfoldable pub canonical_user_pair : ℕ → ℕ → Result (ℕ × ℕ)
canonical_user_pair first second = do
  raise_if (first == second) (value_error Complaint.two_distinct_users)
  ok (if ltb first second then (first, second) else (second, first))

-- The columns that the database computes.
abbrev pub low_user_id : BuddyMatch → ℕ
low_user_id m = min m.participant_one_user_id m.participant_two_user_id

abbrev pub high_user_id : BuddyMatch → ℕ
high_user_id m = max m.participant_one_user_id m.participant_two_user_id

-- The two orders of a pair of distinct users have one identity, which lists the two in increasing
-- order and is the pair that the database computes; a user with themselves has none.
pub canonical_user_pair_comm :
    (a b : ℕ)
    → (canonical_user_pair a b ≡ canonical_user_pair b a)
      × (a ≢ b → canonical_user_pair a b ≡ ok (min a b, max a b))
      × (a ≡ b → canonical_user_pair a b ≡ err (value_error Complaint.two_distinct_users))
unfolding canonical_user_pair
canonical_user_pair_comm a b = (ground arith, ground arith, ground arith)

-- Two pairs have the same identity exactly if they are the same unordered pair.
pub canonical_user_pair_injective :
    (a b c d : ℕ)
    → a ≢ b
    → canonical_user_pair a b ≡ canonical_user_pair c d
    → ((c ≡ a) × (d ≡ b)) ⊎ ((c ≡ b) × (d ≡ a))
unfolding canonical_user_pair
canonical_user_pair_injective a b c d h e = ground arith
