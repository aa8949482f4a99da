-- ===== src/Sync.antt =====
-- packages/database/src/sync.ts: the log of an organization's changes that its devices push to
-- and pull from, the conflicts of stale pushes, and the registered devices.
pub mod Schema
pub mod Append
pub mod Push
pub mod Log
pub mod Sequence
pub mod Delivery
pub mod Repush
pub mod Pull
pub mod Paging
pub mod Conflicts
pub mod Devices
mod Tests
