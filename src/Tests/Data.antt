-- ===== src/Tests/Data.antt =====
-- The rows that the tests share.
use buddy_web_ver.Base.{
  ◌&&◌, ◌||◌, map, ltb, leb, ◌==◌, if◌then◌else◌, ℕ, ◌+◌, refl, none, some, [], ◌∷◌,
}
use buddy_web_ver.Errors.{pending, accepted}
use buddy_web_ver.Text.{codes, btrim}
use buddy_web_ver.Models.Invitation.{MatchingInvitation, IsStored, invitation_expiry_interval}
use buddy_web_ver.Preferences.{Unicode}
use buddy_web_ver.Db.{Db}

-- Lower case of the letters A to Z.
abbrev pub lower : ℕ → ℕ
lower c = if leb 65 c && leb c 90 then c + 32 else c

abbrev pub ascii : Unicode
ascii = record {
  unsafe_category = λ c. ltb c 32 || c == 127;
  nfkc = λ value. value;
  casefold = map lower;
}

-- Sent by user 1 to user 2 at the instant 1000.
abbrev pub sent : MatchingInvitation
sent = record {
  id = 7;
  sender_id = 1;
  recipient_id = 2;
  message = codes "hi";
  status = pending;
  created_at = some 1000;
  expires_at = 1000 + invitation_expiry_interval;
  responded_at = none;
  cancelled_at = none;
  expired_at = none;
  sender_hidden_at = none;
  deleted_at = none;
  version = 1;
}

abbrev pub answered : MatchingInvitation
answered = record sent { status = accepted; responded_at = some 2000 }

abbrev pub second_sent : MatchingInvitation
second_sent = record sent { id = 8; recipient_id = 3; message = [] }

pub sent-IsStored : IsStored sent
unfolding btrim
sent-IsStored = record {
  has_created_at = refl;
  distinct_participants = refl;
  canonical_pair = refl;
  has_canonical_message = refl;
  has_expiry_interval = refl;
  has_status_timestamps = refl;
  has_timestamp_order = refl;
  version_positive = refl;
}

pub second_sent-IsStored : IsStored second_sent
unfolding btrim
second_sent-IsStored = record {
  has_created_at = refl;
  distinct_participants = refl;
  canonical_pair = refl;
  has_canonical_message = refl;
  has_expiry_interval = refl;
  has_status_timestamps = refl;
  has_timestamp_order = refl;
  version_positive = refl;
}

abbrev pub empty_db : Db
empty_db = record {
  users = [];
  profiles = [];
  photos = [];
  interests = [];
  languages = [];
  activities = [];
  profile_interests = [];
  profile_languages = [];
  profile_activities = [];
  custom_preferences = [];
  invitations = [];
  matches = [];
  conversations = [];
  messages = [];
  refresh_sessions = [];
  verification_tokens = [];
  outbox = [];
}

abbrev pub two_sent : Db
two_sent = record empty_db { invitations = sent ∷ second_sent ∷ [] }
