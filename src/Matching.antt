-- ===== src/Matching.antt =====
-- Compatibility scoring and recommendations (apps/api/app/services/matching_*.py).
pub mod Intervals
pub mod Fractions
pub mod Identities
pub mod Availability
pub mod Eligibility
pub mod Scoring
pub mod Projection
pub mod Candidates
pub mod Recommendations
