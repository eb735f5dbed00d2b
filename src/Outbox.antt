-- ===== src/Outbox.antt =====
-- The transactional outbox (apps/api/app/services/email_outbox.py): events are enqueued in the
-- transaction of the business operation, and workers claim, deliver and finalize them.
pub mod Payload
pub mod Event
pub mod Enqueue
pub mod Delay
pub mod Claim
pub mod Finalize
pub mod Steps
pub mod Fresh
pub mod Leases
pub mod Moves
pub mod Claimed
