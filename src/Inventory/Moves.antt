-- ===== src/Inventory/Moves.antt =====
-- What a move of an item does to the stock, and to the item.
use daja_platform.Base.{
  ◌≡◌, ◌≢◌, true, false, Option, some, List, ◌&&◌, ◌==◌, if◌then◌else◌, find_row, update_rows, ok,
  arith, ◌>>=◌,
}
use daja_platform.Base.Int.{pos, negsuc, ◌+ℤ◌}
use daja_platform.Context.{Uuid, RequestContext}
use daja_platform.Inventory.Schema.{Tables, Item, is_live_item}
use daja_platform.Inventory.Outcome.{adjusted, adjust_cases}
use daja_platform.Inventory.Items.{Moved, move_item, move_input, relocate, is_item}
use daja_platform.Inventory.Ledger.{quantity_at, quantity_at-adjusted, quantity_at-items}

abbrev pub found_item : RequestContext → Uuid → Tables → Option Item
found_item ctx item_id db = find_row (is_live_item ctx.organization_id item_id) db.items

module _ (ctx : RequestContext) (item_id : Uuid) (to from : Uuid) (db : Tables) (item : Item) where
  abbrev pub left_tables : Tables
  left_tables = adjusted ctx (move_input item from false) db

  abbrev pub arrived_tables : Tables
  arrived_tables = adjusted ctx (move_input item to true) left_tables

  abbrev pub relocated : List Item
  relocated = update_rows (is_item ctx.organization_id item.id) (relocate to) db.items

  abbrev pub moved_tables : Tables
  moved_tables = record arrived_tables { items = relocated }

  pub move_writes :
      found_item ctx item_id db ≡ some item
      → item.current_location_id ≡ some from
      → from ≢ to
      → (out : Moved) → (move_item ctx item_id to db).0 ≡ ok out
      → (move_item ctx item_id to db).1 ≡ moved_tables
  unfolding move_item ◌>>=◌
  move_writes found here other out h = ground (
    arith,
    found,
    here,
    adjust_cases ctx (move_input item from false) db,
    adjust_cases ctx (move_input item to true) left_tables,
  )

  -- A move from one location to another takes one piece from the first and adds one to the
  -- second, and no other balance changes.
  pub move_item_stock :
      found_item ctx item_id db ≡ some item
      → item.current_location_id ≡ some from
      → from ≢ to
      → (out : Moved) → (move_item ctx item_id to db).0 ≡ ok out
      → (org loc var : Uuid)
      → quantity_at org loc var (move_item ctx item_id to db).1 ≡ (
          if ctx.organization_id == org && from == loc && item.variant_id == var
          then quantity_at org loc var db +ℤ negsuc 0
          else if ctx.organization_id == org && to == loc && item.variant_id == var
          then quantity_at org loc var db +ℤ pos 1
          else quantity_at org loc var db)
  move_item_stock found here other out h org loc var = rw (move_writes found here other out h) (
      ground (
        arith,
        quantity_at-items org loc var arrived_tables relocated,
        quantity_at-adjusted ctx (move_input item to true) left_tables org loc var,
        quantity_at-adjusted ctx (move_input item from false) db org loc var,
      ))
