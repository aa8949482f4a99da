-- ===== src/Inventory/Stock.antt =====
-- What each method that returns does to the stock at every place, and when `adjust` refuses.
use daja_platform.Base.{
  ◌+◌, ◌≢◌, ◌≡◌, true, false, some, List, [], ◌∷◌, ◌&&◌, ◌||◌, ◌==◌, if◌then◌else◌, find_row,
  update_rows, str_eq, ok, err, Result, Bool, refl, ◌⊎◌, arith, ◌>>=◌, Bool-cases, inl, inr,
}
use daja_platform.Base.Int.{ℤ, pos, ◌+ℤ◌, ltb_ℤ}
use daja_platform.Context.{Uuid, RequestContext, value, is_given, or_null}
use daja_platform.Security.Errors.{AppError, resource_conflict}
use daja_platform.Inventory.Schema.{Tables, Item, is_live_item}
use daja_platform.Inventory.Adjust.{
  Number, integer, fractional, AdjustInput, Adjusted, ItemInput, assert_variant, assert_location,
  checked_delta, assert_storage_placement, next_zone, next_bin, adjust,
}
use daja_platform.Inventory.Outcome.{existing, adjust_writes, adjust_cases, delta_of}
use daja_platform.Inventory.Items.{
  Moved, status_or_default, new_item_input, create_item, move_item, relocate, is_item,
}
use daja_platform.Inventory.Ledger.{quantity_at, quantity_at-adjusted, quantity_at-items}
use daja_platform.Inventory.Moves.{found_item, move_writes}

-- An adjustment that returns adds its delta to the balance of its variant at its location in its
-- organization, and changes no other balance.
pub adjust_stock_at :
    (ctx : RequestContext) (input : AdjustInput) (db : Tables) (out : Adjusted)
    → (adjust ctx input db).0 ≡ ok out
    → (org loc var : Uuid)
    → quantity_at org loc var (adjust ctx input db).1 ≡ (
        if ctx.organization_id == org && input.location_id == loc && input.variant_id == var
        then quantity_at org loc var db +ℤ delta_of input.quantity_delta
        else quantity_at org loc var db)
adjust_stock_at ctx input db out h org loc var =
    rw (adjust_writes ctx input db out h) (quantity_at-adjusted ctx input db org loc var)

Result-cases : {A : Type 0} (r : Result A) → ((a : A) × (r ≡ ok a)) ⊎ ((e : AppError) × (r ≡ err e))
Result-cases (ok a) = inl (a, refl)
Result-cases (err e) = inr (e, refl)

checked_delta-delta_of :
    (n : Number) (placed : Bool) (delta : ℤ)
    → checked_delta n placed ≡ ok delta
    → delta ≡ delta_of n
unfolding checked_delta
checked_delta-delta_of fractional placed delta h = cc
checked_delta-delta_of (integer d) placed delta h = ground (arith, h)

-- An adjustment that would leave less than nothing of its variant at its location raises, whatever
-- else it asks for, and changes no table.
pub adjust_refuses :
    (ctx : RequestContext) (input : AdjustInput) (db : Tables)
    → ltb_ℤ
        (quantity_at ctx.organization_id input.location_id input.variant_id db
          +ℤ delta_of input.quantity_delta)
        (pos 0)
      ≡ true
    → (e : AppError) × (adjust ctx input db ≡ (err e, db))
unfolding adjust ◌>>=◌ quantity_at
adjust_refuses ctx input db n =
    elim (Result-cases (assert_variant ctx.organization_id input.variant_id db)) [
      | inr (e, v) ↦ (e, ground (arith, v))
      | inl (_, v) ↦
          elim (Result-cases (assert_location ctx.organization_id input.location_id db)) [
            | inr (e, l) ↦ (e, ground (arith, v, l))
            | inl (_, l) ↦
                elim (Result-cases (
                  checked_delta input.quantity_delta
                    (is_given input.zone_id || is_given input.bin_id))) [
                      | inr (e, c) ↦ (e, ground (arith, v, l, c))
                      | inl (delta, c) ↦
                          let same = checked_delta-delta_of input.quantity_delta _ delta c in
                          elim (Result-cases (
                            assert_storage_placement ctx.organization_id input.location_id
                              (next_zone input.zone_id (existing ctx input db))
                              (next_bin input.zone_id input.bin_id (existing ctx input db)) db)) [
                                | inr (e, p) ↦ (e, ground (arith, v, l, c, p))
                                | inl (_, p) ↦ (
                                  resource_conflict "Inventory balance cannot become negative",
                                  ground (arith, v, l, c, p, same, n),
                                )
                              ]
                    ]
          ]
    ]

find_row-relocate :
    (org item_id to : Uuid) (item : Item) (rows : List Item)
    → find_row (is_live_item org item_id) rows ≡ some item
    → find_row (is_live_item org item_id) (update_rows (is_item org item.id) (relocate to) rows)
      ≡ some (relocate to item)
find_row-relocate org item_id to item [] h = cc
find_row-relocate org item_id to item (row ∷ rows) h =
    elim (Bool-cases (is_live_item org item_id row)) [
      | inl e ↦ ground (arith, h, e)
      | inr e ↦ ground (arith, h, e, find_row-relocate org item_id to item rows)
    ]

-- After a move that returns from one location to another, the item is at the new location and
-- "transferred", and still names the zone and the shelf that it had at the old one.
pub move_item_row :
    (ctx : RequestContext) (item_id to from : Uuid) (db : Tables) (item : Item)
    → found_item ctx item_id db ≡ some item
    → item.current_location_id ≡ some from
    → from ≢ to
    → (out : Moved) → (move_item ctx item_id to db).0 ≡ ok out
    → found_item ctx item_id (move_item ctx item_id to db).1
      ≡ some (record item {
        current_location_id = some to;
        status = "transferred";
        version = item.version + 1;
      })
move_item_row ctx item_id to from db item found here other out h =
    rw (move_writes ctx item_id to from db item found here other out h)
      (find_row-relocate ctx.organization_id item_id to item db.items found)

module _ (id : Uuid) (ctx : RequestContext) (input : ItemInput) (db : Tables) (loc : Uuid) where
  abbrev new_item : Item
  new_item = record {
    id = id;
    organization_id = ctx.organization_id;
    variant_id = input.variant_id;
    serial_number = or_null input.serial_number;
    status = status_or_default input.status;
    current_location_id = or_null input.location_id;
    current_zone_id = or_null input.zone_id;
    current_bin_id = or_null input.bin_id;
    version = 1;
    deleted = false;
  }

  abbrev with_item : Tables
  with_item = record db { items = new_item ∷ db.items }

  -- Creating an item at a location adds one piece to the balance of its variant there if its
  -- status is "in_stock", which it is by default, and changes no other balance.
  pub create_item_stock :
      input.location_id ≡ value loc
      → (out : Item) → (create_item id ctx input db).0 ≡ ok out
      → (org loc' var : Uuid)
      → quantity_at org loc' var (create_item id ctx input db).1 ≡ (
          if str_eq (status_or_default input.status) "in_stock"
            && (ctx.organization_id == org && loc == loc' && input.variant_id == var)
          then quantity_at org loc' var db +ℤ pos 1
          else quantity_at org loc' var db)
  unfolding create_item ◌>>=◌
  create_item_stock here out h org loc' var = ground (
    arith,
    here,
    adjust_cases ctx (new_item_input id input loc) with_item,
    quantity_at-adjusted ctx (new_item_input id input loc) with_item org loc' var,
    quantity_at-items org loc' var db (new_item ∷ db.items),
  )
