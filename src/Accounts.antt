-- ===== src/Accounts.antt =====
-- Accounts (apps/api/app/services/auth.py).
pub mod Email
pub mod Verification
pub mod Consumption
pub mod OneUse
pub mod Issue
pub mod Superseding
pub mod Issued
