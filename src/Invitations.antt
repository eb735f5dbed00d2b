-- ===== src/Invitations.antt =====
-- The invitation services (apps/api/app/services/invitation_*.py).
pub mod Message
pub mod Expiry
pub mod Mutations
pub mod Sending
pub mod Acceptance
