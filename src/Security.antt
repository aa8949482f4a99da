-- ===== src/Security.antt =====
-- packages/security: the errors that every other package raises, and the permission test.
pub mod Errors
