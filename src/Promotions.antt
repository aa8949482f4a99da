-- ===== src/Promotions.antt =====
-- apps/api/src/promotions.service.ts: promotion codes. `resolve` prices a code for a cart, and
-- `consume` counts its use when the order is made.
pub mod Schema
pub mod Double
pub mod Scope
pub mod Audience
pub mod Resolve
pub mod Entitled
pub mod Consume
pub mod Honour
pub mod Limits
pub mod Input
pub mod Prepare
pub mod Storable
pub mod Admin
pub mod Copy
mod Tests
