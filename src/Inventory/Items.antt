-- ===== src/Inventory/Items.antt =====
-- packages/database/src/inventory.ts: `createItem` and `moveItem`, which go through `adjust`.
use daja_platform.Base.{
  ◌+◌, String, Bool, Option, none, some, ◌∷◌, ◌&&◌, ◌==◌, if◌then◌else◌, str_eq, find_row,
  update_rows, Action, pure, gets, check, raise, modify, or_raise, ◌>>=◌, ◌>>◌,
}
use daja_platform.Base.Int.{pos, negsuc}
use daja_platform.Context.{Uuid, undefined, value, RequestContext, same_id, or_null}
use daja_platform.Security.Errors.{validation_failed, tenant_access_denied}
use daja_platform.Inventory.Schema.{Item, Tables, is_live_item}
use daja_platform.Inventory.Adjust.{
  AdjustInput, ItemInput, integer, assert_variant, assert_location, assert_storage_placement,
  adjust,
}

pub record Moved : Type 0 where
  pub inventory_item_id : Uuid
  pub location_id : Uuid

-- `input.status ?? 'in_stock'`
abbrev pub status_or_default : Option String → String
status_or_default none = "in_stock"
status_or_default (some s) = s

-- The checks on the place of a new item.
unfoldable pub check_place :
    Uuid → Option Uuid → Option Uuid → Option Uuid → Action Tables (Unit {0})
unfolding assert_location assert_storage_placement
check_place org (some loc) zone_id bin_id = do
  check (assert_location org loc)
  check (assert_storage_placement org loc zone_id bin_id)
check_place org none none none = pure tt
check_place org none zone_id bin_id =
    raise (validation_failed "Warehouse zone and shelf require a location")

-- The adjustment for a new item.
abbrev pub new_item_input : Uuid → ItemInput → Uuid → AdjustInput
new_item_input id input loc = record {
  variant_id = input.variant_id;
  inventory_item_id = value id;
  location_id = loc;
  zone_id = input.zone_id;
  bin_id = input.bin_id;
  quantity_delta = integer (pos 1);
  source_type = "inventory_item_create";
  source_id = value id;
}

-- A new item in stock at a location counts there.
unfoldable pub count_new :
    RequestContext → Uuid → ItemInput → Option Uuid → Action Tables (Unit {0})
count_new ctx id input none = pure tt
count_new ctx id input (some loc) =
    if str_eq (status_or_default input.status) "in_stock"
    then (do adjust ctx (new_item_input id input loc); pure tt)
    else pure tt

-- `id` is the key that the database makes for the new row.
unfoldable pub create_item : Uuid → RequestContext → ItemInput → Action Tables Item
unfolding assert_variant check_place count_new
create_item id ctx input = do
  check (assert_variant ctx.organization_id input.variant_id)
  check_place ctx.organization_id (or_null input.location_id) (or_null input.zone_id)
      (or_null input.bin_id)
  let item : Item = record {
    id = id;
    organization_id = ctx.organization_id;
    variant_id = input.variant_id;
    serial_number = or_null input.serial_number;
    status = status_or_default input.status;
    current_location_id = or_null input.location_id;
    current_zone_id = or_null input.zone_id;
    current_bin_id = or_null input.bin_id;
    version = 1;
    deleted = Bool.false;
  }
  modify (λ db. record db { items = item ∷ db.items })
  count_new ctx id input (or_null input.location_id)
  pure item

-- One of the two adjustments of a move.
abbrev pub move_input : Item → Uuid → Bool → AdjustInput
move_input item loc arrives = record {
  variant_id = item.variant_id;
  inventory_item_id = value item.id;
  location_id = loc;
  zone_id = undefined;
  bin_id = undefined;
  quantity_delta = integer (if arrives then pos 1 else negsuc 0);
  source_type = "inventory_item_move";
  source_id = value item.id;
}

unfoldable pub leave : RequestContext → Item → Option Uuid → Action Tables (Unit {0})
leave ctx item none = pure tt
leave ctx item (some from) = do adjust ctx (move_input item from Bool.false); pure tt

-- The UPDATE at the end of a move.
abbrev pub relocate : Uuid → Item → Item
relocate to item = record item {
  current_location_id = some to;
  status = "transferred";
  version = item.version + 1;
}

abbrev pub is_item : Uuid → Uuid → Item → Bool
is_item org id row = row.organization_id == org && row.id == id

unfoldable pub move_from : RequestContext → Item → Uuid → Action Tables (Unit {0})
unfolding leave
move_from ctx item to = do
  leave ctx item item.current_location_id
  adjust ctx (move_input item to Bool.true)
  modify (λ db. record db {
    items = update_rows (is_item ctx.organization_id item.id) (relocate to) db.items;
  })

unfoldable pub move_item : RequestContext → Uuid → Uuid → Action Tables Moved
unfolding assert_location move_from
move_item ctx item_id to = do
  check (assert_location ctx.organization_id to)
  row ← gets (λ db. find_row (is_live_item ctx.organization_id item_id) db.items)
  item ← or_raise row tenant_access_denied
  if same_id item.current_location_id (some to) then pure tt else move_from ctx item to
  pure (record { inventory_item_id = item_id; location_id = to })
