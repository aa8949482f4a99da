-- ===== src/Inventory.antt =====
-- packages/database/src/inventory.ts: `class InventoryRepository`. Each method is an action on the
-- tables; `balances`, which only lists rows, is left out.
pub mod Schema
pub mod Adjust
pub mod Items
pub mod Outcome
pub mod Ledger
pub mod Methods
pub mod Bounds
pub mod Moves
pub mod Audit
pub mod Placement
pub mod Stock
mod Tests
