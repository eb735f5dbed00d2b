-- ===== src/Models.antt =====
-- The persisted rows (apps/api/app/models).
pub mod User
pub mod Profile
pub mod Catalog
pub mod Invitation
pub mod Match
pub mod Json
pub mod Outbox
pub mod Chat
pub mod Account
