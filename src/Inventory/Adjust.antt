-- ===== src/Inventory/Adjust.antt =====
-- packages/database/src/inventory.ts: the checks and `adjust`.
use daja_platform.Inventory.Schema.{
  Tables, Balance, Event, Zone, Bin, is_live, is_zone_at, is_bin_in, fits_integer, upsert_balance,
  find_balance,
}
use daja_platform.Base.{
  String, Bool, Option, none, some, List, ◌∷◌, ◌&&◌, ◌||◌, not, if◌then◌else◌, any, find_row,
  Result, ok, err, Action, pure, gets, check, modify, guard, raise_if, ◌>>=◌, ◌>>◌,
}
use daja_platform.Base.Int.{ℤ, pos, ◌+ℤ◌, ltb_ℤ, eq_ℤ}
use daja_platform.Context.{Uuid, Optional, undefined, RequestContext, same_id, is_given, or_null}
use daja_platform.Security.Errors.{validation_failed, resource_conflict, other_error}

-- A JavaScript number; `fractional` is any that `Number.isInteger` refuses.
pub data Number : Type 0 where
  integer : ℤ → Number
  fractional : Number

pub record AdjustInput : Type 0 where
  pub variant_id : Uuid
  pub inventory_item_id : Optional Uuid
  pub location_id : Uuid
  pub zone_id : Optional Uuid
  pub bin_id : Optional Uuid
  pub quantity_delta : Number
  pub source_type : String
  pub source_id : Optional Uuid

pub record Adjusted : Type 0 where
  pub variant_id : Uuid
  pub location_id : Uuid
  pub zone_id : Option Uuid
  pub bin_id : Option Uuid
  pub previous_quantity : ℤ
  pub quantity : ℤ

pub record ItemInput : Type 0 where
  pub variant_id : Uuid
  pub serial_number : Optional String
  pub location_id : Optional Uuid
  pub zone_id : Optional Uuid
  pub bin_id : Optional Uuid
  pub status : Option String

unfoldable pub assert_variant : Uuid → Uuid → Tables → Result (Unit {0})
assert_variant org variant db =
    guard (any (is_live org variant) db.variants)
      (validation_failed "Variant does not belong to organization")

unfoldable pub assert_location : Uuid → Uuid → Tables → Result (Unit {0})
assert_location org loc db =
    guard (any (is_live org loc) db.locations)
      (validation_failed "Location does not belong to organization")

-- After the query: a zone that was found, and the bin that was asked for.
abbrev pub placement_found : Uuid → Option Uuid → List Bin → Option Zone → Bool
placement_found org bin bins none = Bool.false
placement_found org none bins (some zone) = Bool.true
placement_found org (some bin) bins (some zone) = any (is_bin_in org zone.id bin) bins

unfoldable pub assert_storage_placement :
    Uuid → Uuid → Option Uuid → Option Uuid → Tables → Result (Unit {0})
assert_storage_placement org loc none none db = ok tt
assert_storage_placement org loc none (some bin) db =
    err (validation_failed "Warehouse shelf requires a zone")
assert_storage_placement org loc (some zone) bin db =
    guard
      (placement_found org bin db.bins (find_row (is_zone_at db.warehouses org loc zone) db.zones))
      (validation_failed "Warehouse zone or shelf does not belong to selected location")

-- The test on `quantityDelta`.
unfoldable pub checked_delta : Number → Bool → Result ℤ
checked_delta fractional placed =
    err (validation_failed "Inventory adjustment must change quantity or warehouse placement")
checked_delta (integer delta) placed =
    if eq_ℤ delta (pos 0) && not placed
    then err (validation_failed "Inventory adjustment must change quantity or warehouse placement")
    else ok delta

-- `currentBalance?.quantity ?? 0`
abbrev pub quantity_of : Option Balance → ℤ
quantity_of none = pos 0
quantity_of (some b) = b.quantity

-- `input.zoneId !== undefined ? input.zoneId : (currentBalance?.zoneId ?? null)`
unfoldable pub next_zone : Optional Uuid → Option Balance → Option Uuid
next_zone undefined none = none
next_zone undefined (some b) = b.zone_id
next_zone given existing = or_null given

-- A shelf that is not given is kept, unless the zone changes.
unfoldable pub next_bin : Optional Uuid → Optional Uuid → Option Balance → Option Uuid
next_bin zone undefined none = none
next_bin undefined undefined (some b) = b.bin_id
next_bin zone undefined (some b) = if same_id (or_null zone) b.zone_id then b.bin_id else none
next_bin zone given existing = or_null given

-- The two INSERT statements; one whose number does not fit its column is refused.
unfoldable pub insert_event : Event → Action Tables (Unit {0})
insert_event e = do
  raise_if (not (fits_integer e.quantity_delta)) (other_error "integer out of range")
  modify (λ db. record db { events = e ∷ db.events })

unfoldable pub store_balance : Balance → Action Tables (Unit {0})
store_balance b = do
  raise_if (not (fits_integer b.quantity)) (other_error "integer out of range")
  modify (λ db. record db { balances = upsert_balance b db.balances })

unfoldable pub adjust : RequestContext → AdjustInput → Action Tables Adjusted
unfolding assert_variant assert_location assert_storage_placement checked_delta next_zone next_bin
    insert_event store_balance
adjust ctx input = do
  check (assert_variant ctx.organization_id input.variant_id)
  check (assert_location ctx.organization_id input.location_id)
  delta ←
      check
        (λ _. checked_delta input.quantity_delta (is_given input.zone_id || is_given input.bin_id))
  existing ←
      gets (λ db. find_balance ctx.organization_id input.location_id input.variant_id db.balances)
  let zone = next_zone input.zone_id existing
  let bin = next_bin input.zone_id input.bin_id existing
  check (assert_storage_placement ctx.organization_id input.location_id zone bin)
  let next = quantity_of existing +ℤ delta
  raise_if (ltb_ℤ next (pos 0)) (resource_conflict "Inventory balance cannot become negative")
  insert_event (record {
    organization_id = ctx.organization_id;
    variant_id = input.variant_id;
    inventory_item_id = or_null input.inventory_item_id;
    quantity_delta = delta;
    to_location_id = input.location_id;
    source_type = input.source_type;
    source_id = or_null input.source_id;
    actor_user_id = ctx.user_id;
    zone_id = zone;
    bin_id = bin;
  })
  store_balance (record {
    organization_id = ctx.organization_id;
    location_id = input.location_id;
    variant_id = input.variant_id;
    zone_id = zone;
    bin_id = bin;
    quantity = next;
    version = 1;
  })
  pure (record {
    variant_id = input.variant_id;
    location_id = input.location_id;
    zone_id = zone;
    bin_id = bin;
    previous_quantity = quantity_of existing;
    quantity = next;
  })
