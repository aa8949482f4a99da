-- ===== src/Access.antt =====
-- apps/api/src/access-policy.ts and apps/api/src/sync-authorization.ts: who may do what.
pub mod Grants
pub mod Policy
pub mod Escalation
pub mod Commands
pub mod Authorized
mod Tests
