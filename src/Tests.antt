-- ===== src/Tests.antt =====
-- Concrete inputs, runs of the code on them, and the theorems applied to them.
mod Data
mod Invitations
mod Matching
mod Outbox
mod Sending
mod Matches
mod Chat
mod Sessions
mod Accounts
mod Acceptance
mod Recommendations
