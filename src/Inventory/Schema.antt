-- ===== src/Inventory/Schema.antt =====
-- The tables that packages/database/src/inventory.ts reads and writes, with the columns it uses.
-- Time stamps, foreign keys and the serial number's unique index are left out, and of an event's
-- metadata the two keys that `adjust` itself adds are kept.
use daja_platform.Base.{
  ℕ, ◌+◌, String, Bool, Option, List, [], ◌∷◌, ◌&&◌, not, ◌==◌, if◌then◌else◌, any, find_row,
}
use daja_platform.Base.Int.{ℤ, pos, negsuc, ltb_ℤ}
use daja_platform.Context.{Uuid}

-- A row of product_variants or of locations.
pub record Owned : Type 0 where
  pub id : Uuid
  pub organization_id : Uuid
  pub deleted : Bool

pub record Warehouse : Type 0 where
  pub id : Uuid
  pub organization_id : Uuid
  pub location_id : Uuid
  pub deleted : Bool
  pub active : Bool

pub record Zone : Type 0 where
  pub id : Uuid
  pub organization_id : Uuid
  pub warehouse_id : Uuid
  pub deleted : Bool
  pub active : Bool

pub record Bin : Type 0 where
  pub id : Uuid
  pub organization_id : Uuid
  pub zone_id : Uuid
  pub deleted : Bool
  pub active : Bool

pub record Item : Type 0 where
  pub id : Uuid
  pub organization_id : Uuid
  pub variant_id : Uuid
  pub serial_number : Option String
  pub status : String
  pub current_location_id : Option Uuid
  pub current_zone_id : Option Uuid
  pub current_bin_id : Option Uuid
  pub version : ℕ
  pub deleted : Bool

pub record Event : Type 0 where
  pub organization_id : Uuid
  pub variant_id : Uuid
  pub inventory_item_id : Option Uuid
  pub quantity_delta : ℤ
  pub to_location_id : Uuid
  pub source_type : String
  pub source_id : Option Uuid
  pub actor_user_id : Uuid
  pub zone_id : Option Uuid
  pub bin_id : Option Uuid

pub record Balance : Type 0 where
  pub organization_id : Uuid
  pub location_id : Uuid
  pub variant_id : Uuid
  pub zone_id : Option Uuid
  pub bin_id : Option Uuid
  pub quantity : ℤ
  pub version : ℕ

-- Events newest first.
pub record Tables : Type 0 where
  pub variants : List Owned
  pub locations : List Owned
  pub warehouses : List Warehouse
  pub zones : List Zone
  pub bins : List Bin
  pub items : List Item
  pub events : List Event
  pub balances : List Balance

-- The range of a column of type `integer`.
abbrev pub fits_integer : ℤ → Bool
fits_integer z = not (ltb_ℤ (pos 2147483647) z) && not (ltb_ℤ z (negsuc 2147483647))

-- `WHERE organization_id = $1 AND id = $2 AND deleted_at IS NULL`
abbrev pub is_live : Uuid → Uuid → Owned → Bool
is_live org id row = row.organization_id == org && row.id == id && not row.deleted

abbrev pub is_live_item : Uuid → Uuid → Item → Bool
is_live_item org id row = row.organization_id == org && row.id == id && not row.deleted

-- `WHERE organization_id = $1 AND location_id = $2 AND variant_id = $3`
abbrev pub has_key : Uuid → Uuid → Uuid → Balance → Bool
has_key org loc var b = b.organization_id == org && b.location_id == loc && b.variant_id == var

-- The join of `assertStoragePlacement`: the zone, and its bin if that is asked for and there.
abbrev pub is_zone_at : List Warehouse → Uuid → Uuid → Uuid → Zone → Bool
is_zone_at warehouses org loc zone row =
    row.organization_id == org
    && row.id == zone
    && not row.deleted
    && row.active
    && any
        (λ w.
          w.organization_id == row.organization_id
          && w.id == row.warehouse_id
          && w.location_id == loc
          && not w.deleted
          && w.active)
        warehouses

abbrev pub is_bin_in : Uuid → Uuid → Uuid → Bin → Bool
is_bin_in org zone bin row =
    row.organization_id == org
    && row.id == bin
    && row.zone_id == zone
    && not row.deleted
    && row.active

-- `INSERT … ON CONFLICT (organization_id, location_id, variant_id) DO UPDATE`
unfoldable pub upsert_balance : Balance → List Balance → List Balance
upsert_balance b [] = b ∷ []
upsert_balance b (c ∷ cs) =
    if has_key b.organization_id b.location_id b.variant_id c
    then (record c {
      zone_id = b.zone_id;
      bin_id = b.bin_id;
      quantity = b.quantity;
      version = c.version + 1;
    })
      ∷ cs
    else c ∷ upsert_balance b cs

unfoldable pub find_balance : Uuid → Uuid → Uuid → List Balance → Option Balance
find_balance org loc var = find_row (has_key org loc var)
