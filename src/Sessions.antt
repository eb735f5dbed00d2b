-- ===== src/Sessions.antt =====
-- Tokens and refresh sessions (apps/api/app/services/tokens.py and refresh_sessions.py).
pub mod Jwt
pub mod Tokens
pub mod Families
pub mod Rotations
pub mod Reuse
pub mod Histories
pub mod Replay
pub mod Claims
pub mod RoundTrip
