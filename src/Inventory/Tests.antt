-- ===== src/Inventory/Tests.antt =====
-- Runs of the inventory's methods on a small organization, and its theorems at these inputs.
use daja_platform.Base.{
  ℕ, ◌≡◌, ◌≢◌, refl, true, false, none, some, List, [], ◌∷◌, ok, err, arith, ◌>>=◌,
}
use daja_platform.Base.Int.{ℤ, pos, negsuc, ◌+ℤ◌}
use daja_platform.Context.{RequestContext, undefined, value}
use daja_platform.Security.Errors.{AppError, other_error}
use daja_platform.Inventory.Schema.{Tables, Owned, Item, find_balance, upsert_balance}
use daja_platform.Inventory.Adjust.{AdjustInput, ItemInput, integer, adjust}
use daja_platform.Inventory.Items.{create_item, move_item}
use daja_platform.Inventory.Ledger.{IsLedger, quantity_at, tally}
use daja_platform.Inventory.Bounds.{IsStocked}
use daja_platform.Inventory.Audit.{adjust_stock, create, serve, serve-IsLedger, serve-IsStocked}
use daja_platform.Inventory.Placement.{IsPlaced, serve-IsPlaced}
use daja_platform.Inventory.Moves.{found_item, move_item_stock}
use daja_platform.Inventory.Stock.{adjust_stock_at, adjust_refuses, move_item_row}
use daja_platform.Transactions.{Driver, Pool}

abbrev clerk : RequestContext
clerk = record {
  organization_id = 1;
  user_id = 2;
  device_id = none;
  location_id = none;
  permissions = [];
  scoped_grants = [];
  is_owner = false;
}

abbrev owned : List Owned
owned =
    record { id = 10; organization_id = 1; deleted = false }
    ∷ record { id = 11; organization_id = 1; deleted = false }
    ∷ []

-- Variants and locations are both numbered 10 and 11, zone 30 is at location 10, and item 20 is
-- of variant 10 and at location 10, where nothing is counted yet.
abbrev start : Tables
start = record {
  variants = owned;
  locations = owned;
  warehouses =
      record { id = 40; organization_id = 1; location_id = 10; deleted = false; active = true }
      ∷ [];
  zones =
      record { id = 30; organization_id = 1; warehouse_id = 40; deleted = false; active = true }
      ∷ [];
  bins = [];
  items =
      record {
        id = 20;
        organization_id = 1;
        variant_id = 10;
        serial_number = none;
        status = "in_stock";
        current_location_id = some 10;
        current_zone_id = some 30;
        current_bin_id = none;
        version = 1;
        deleted = false;
      }
      ∷ [];
  events = [];
  balances = [];
}

abbrev delivery : ℤ → AdjustInput
delivery delta = record {
  variant_id = 10;
  inventory_item_id = undefined;
  location_id = 10;
  zone_id = value 30;
  bin_id = undefined;
  quantity_delta = integer delta;
  source_type = "delivery";
  source_id = undefined;
}

abbrev stocked : Tables
stocked = (adjust clerk (delivery (pos 5)) start).1

abbrev healthy : Driver
healthy = record {
  connect = none;
  begin_fails = none;
  fault = none;
  commit_fails = none;
  rollback_fails = none;
}

abbrev pool : Tables → Pool Tables
pool db = record { database = db; released = []; listeners = 0; logged = []; leaked = [] }

abbrev new_piece : ItemInput
new_piece = record {
  variant_id = 11;
  serial_number = value "S-1";
  location_id = value 11;
  zone_id = undefined;
  bin_id = undefined;
  status = none;
}

start-IsLedger : IsLedger start
unfolding quantity_at tally find_balance
start-IsLedger = record { explained = λ org loc var. refl }

start-IsStocked : IsStocked start
start-IsStocked = record { rows = tt }

start-IsPlaced : IsPlaced start
start-IsPlaced = record { rows = tt }

delivery_counts : quantity_at 1 10 10 stocked ≡ pos 5
unfolding quantity_at adjust ◌>>=◌ find_balance upsert_balance ◌+ℤ◌
delivery_counts = refl

too_much :
    (adjust clerk (delivery (pos 2147483648)) start).0 ≡ err (other_error "integer out of range")
unfolding adjust ◌>>=◌ find_balance ◌+ℤ◌
too_much = refl

serve-IsLedger_example :
    IsLedger (serve healthy clerk (adjust_stock (delivery (pos 5))) (pool start)).database
serve-IsLedger_example =
    serve-IsLedger healthy clerk (adjust_stock (delivery (pos 5))) (pool start) start-IsLedger

serve-IsStocked_example :
    IsStocked (serve healthy clerk (create 21 new_piece) (pool start)).database
serve-IsStocked_example =
    serve-IsStocked healthy clerk (create 21 new_piece) (pool start) start-IsStocked

serve-IsPlaced_example :
    IsPlaced (serve healthy clerk (adjust_stock (delivery (pos 5))) (pool start)).database
serve-IsPlaced_example =
    serve-IsPlaced healthy clerk (adjust_stock (delivery (pos 5))) (pool start) start-IsPlaced

delivered :
    (adjust clerk (delivery (pos 5)) start).0
    ≡ ok (record {
      variant_id = 10;
      location_id = 10;
      zone_id = some 30;
      bin_id = none;
      previous_quantity = pos 0;
      quantity = pos 5;
    })
unfolding adjust ◌>>=◌ find_balance ◌+ℤ◌
delivered = refl

adjust_stock_at_example :
    quantity_at 1 10 10 (adjust clerk (delivery (pos 5)) start).1
    ≡ quantity_at 1 10 10 start +ℤ pos 5
adjust_stock_at_example = adjust_stock_at clerk (delivery (pos 5)) start _ delivered 1 10 10

adjust_refuses_example :
    (e : AppError) × (adjust clerk (delivery (negsuc 0)) start ≡ (err e, start))
unfolding quantity_at find_balance ◌+ℤ◌
adjust_refuses_example = adjust_refuses clerk (delivery (negsuc 0)) start refl

abbrev piece : Item
piece = record {
  id = 20;
  organization_id = 1;
  variant_id = 10;
  serial_number = none;
  status = "in_stock";
  current_location_id = some 10;
  current_zone_id = some 30;
  current_bin_id = none;
  version = 1;
  deleted = false;
}

apart : ◌≢◌ {A = ℕ} 10 11
apart = omega arith

found_piece : found_item clerk 20 stocked ≡ some piece
unfolding adjust ◌>>=◌ find_balance ◌+ℤ◌
found_piece = refl

moved : (move_item clerk 20 11 stocked).0 ≡ ok (record { inventory_item_id = 20; location_id = 11 })
unfolding move_item adjust ◌>>=◌ find_balance ◌+ℤ◌ upsert_balance
moved = refl

move_item_stock_example :
    quantity_at 1 10 10 (move_item clerk 20 11 stocked).1 ≡ quantity_at 1 10 10 stocked +ℤ negsuc 0
move_item_stock_example =
    move_item_stock clerk 20 11 10 stocked piece found_piece refl apart _ moved 1 10 10

move_item_row_example :
    found_item clerk 20 (move_item clerk 20 11 stocked).1
    ≡ some (record piece { current_location_id = some 11; status = "transferred"; version = 2 })
move_item_row_example = move_item_row clerk 20 11 10 stocked piece found_piece refl apart _ moved

made :
    (create_item 21 clerk new_piece start).0
    ≡ ok (record {
      id = 21;
      organization_id = 1;
      variant_id = 11;
      serial_number = some "S-1";
      status = "in_stock";
      current_location_id = some 11;
      current_zone_id = none;
      current_bin_id = none;
      version = 1;
      deleted = false;
    })
unfolding create_item adjust ◌>>=◌ find_balance ◌+ℤ◌
made = refl
