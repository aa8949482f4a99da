-- ===== src/Sessions.antt =====
-- packages/database/src/auth.ts and apps/api/src/auth.service.ts: staff sessions. The tables, the
-- repository, what the service does with it, and what it promises of refresh tokens.
pub mod Schema
pub mod Repository
pub mod Principal
pub mod Service
pub mod Rotation
pub mod Replay
pub mod Login
pub mod Cards
pub mod Authenticate
pub mod Logout
pub mod Lockout
pub mod Example
mod Tests
