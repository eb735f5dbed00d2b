-- ===== src/Matches.antt =====
-- Buddy matches: the locks on their participants and their activation
-- (apps/api/app/services/buddy_match_policy.py and buddy_matches.py).
pub mod Participants
pub mod Activation
pub mod Belonging
pub mod Writes
pub mod Pairs
pub mod Outcome
