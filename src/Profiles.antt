-- ===== src/Profiles.antt =====
-- Profile completion and the capability to use Buddy features
-- (apps/api/app/services/profile_completion.py, buddy_access.py, matching_eligibility.py).
pub mod Completion
pub mod Counts
pub mod Access
