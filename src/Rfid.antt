-- ===== src/Rfid.antt =====
-- packages/database/src/rfid.ts and `normalizeEpc` of packages/validation/src/index.ts: the codes
-- of RFID tags, the tags, and their events.
pub mod Epc
pub mod Tags
pub mod Normal
pub mod History
pub mod Requests
mod Tests
