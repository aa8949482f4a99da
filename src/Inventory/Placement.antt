-- ===== src/Inventory/Placement.antt =====
-- Stock lies where the warehouse layout says that it can: in an active zone of its location, and
-- on an active shelf of that zone.
use daja_platform.Base.{
  ◌≡◌, ◌∙◌, refl, Bool, true, false, not, Option, none, some, List, [], ◌∷◌, ◌&&◌, ◌==◌, All, any,
  find_row, ok, arith, inl, inr, Option-cases,
}
use daja_platform.Base.Rows.{find_row-passes, found-any, any-any}
use daja_platform.Base.Keeps.{Keeps, Returns-of}
use daja_platform.Context.{Uuid, RequestContext}
use daja_platform.Inventory.Schema.{
  Tables, Balance, Event, Item, Zone, Bin, is_zone_at, is_bin_in, upsert_balance,
}
use daja_platform.Inventory.Adjust.{AdjustInput, assert_storage_placement, adjust}
use daja_platform.Inventory.Outcome.{adjusted, new_balance, adjust_writes, adjust_returns}
use daja_platform.Inventory.Audit.{Request, adjust_stock, create, move, serve}
use daja_platform.Transactions.{Driver, Pool}
use daja_platform.Transactions.Atomicity.{run_keeps}
use daja_platform.Inventory.Methods.{create_item-P, move_item-P}

-- An active zone of the organization, of an active warehouse at the location; none is deleted.
abbrev pub is_open_zone : Tables → Uuid → Uuid → Uuid → Zone → Bool
is_open_zone db org loc id zone =
    zone.id == id
    && zone.organization_id == org
    && zone.active
    && not zone.deleted
    && any
        (λ w.
          w.id == zone.warehouse_id
          && w.organization_id == org
          && w.location_id == loc
          && w.active
          && not w.deleted)
        db.warehouses

-- An active shelf of the zone that is not deleted.
abbrev pub is_open_shelf : Uuid → Uuid → Uuid → Bin → Bool
is_open_shelf org zone id bin =
    bin.id == id
    && bin.zone_id == zone
    && bin.organization_id == org
    && bin.active
    && not bin.deleted

unfoldable pub lies_at : Tables → Uuid → Uuid → Option Uuid → Option Uuid → Bool
lies_at db org loc none none = true
lies_at db org loc none (some bin) = false
lies_at db org loc (some zone) none = any (is_open_zone db org loc zone) db.zones
lies_at db org loc (some zone) (some bin) =
    any (is_open_zone db org loc zone) db.zones && any (is_open_shelf org zone bin) db.bins

abbrev pub LiesWell : Tables → Balance → Type 0
LiesWell db b = lies_at db b.organization_id b.location_id b.zone_id b.bin_id ≡ true

pub record IsPlaced (db : Tables) : Type 0 where
  pub rows : All (LiesWell db) db.balances

zone_open :
    (db : Tables) (org loc z : Uuid) (zone : Zone)
    → is_zone_at db.warehouses org loc z zone ≡ true
    → is_open_zone db org loc z zone ≡ true
zone_open db org loc z zone h =
    let same : zone.organization_id ≡ org = ground (arith, h) in
    let warehouse =
      any-any
        (λ w.
          w.organization_id == zone.organization_id
          && w.id == zone.warehouse_id
          && w.location_id == loc
          && not w.deleted
          && w.active)
        (λ w.
          w.id == zone.warehouse_id
          && w.organization_id == org
          && w.location_id == loc
          && w.active
          && not w.deleted)
        (λ w k. ground (arith, k, same)) db.warehouses (ground (arith, h)) in
    ground (arith, h, warehouse)

-- Where the check passes, the balance lies well.
placement_lies :
    (db : Tables) (org loc : Uuid) (zone_id bin_id : Option Uuid)
    → assert_storage_placement org loc zone_id bin_id db ≡ ok tt
    → lies_at db org loc zone_id bin_id ≡ true
unfolding assert_storage_placement lies_at
placement_lies db org loc none none h = refl
placement_lies db org loc none (some bin) h = cc
placement_lies db org loc (some z) none h =
    elim (Option-cases (find_row (is_zone_at db.warehouses org loc z) db.zones)) [
      | inl n ↦ absurd (ground (arith, h, n))
      | inr (zone, f) ↦
          found-any (is_zone_at db.warehouses org loc z) (is_open_zone db org loc z)
            (zone_open db org loc z) db.zones zone f
    ]
placement_lies db org loc (some z) (some bin) h =
    elim (Option-cases (find_row (is_zone_at db.warehouses org loc z) db.zones)) [
      | inl n ↦ absurd (ground (arith, h, n))
      | inr (zone, f) ↦
          let at =
            found-any (is_zone_at db.warehouses org loc z) (is_open_zone db org loc z)
              (zone_open db org loc z) db.zones zone f in
          let passes = find_row-passes (is_zone_at db.warehouses org loc z) db.zones zone f in
          let same : zone.id ≡ z = ground (arith, passes) in
          let shelf =
            any-any (is_bin_in org zone.id bin) (is_open_shelf org z bin)
              (λ b k. ground (arith, k, same)) db.bins (ground (arith, h, f)) in
          ground (arith, at, shelf)
    ]

upsert-LiesWell :
    (db : Tables) (b : Balance) (rows : List Balance)
    → LiesWell db b
    → All (LiesWell db) rows
    → All (LiesWell db) (upsert_balance b rows)
unfolding upsert_balance
upsert-LiesWell db b [] h hs = (h, tt)
upsert-LiesWell db b (c ∷ rows) h hs = ground (arith, upsert-LiesWell db b rows h hs.1)

-- Where a balance lies well depends on the layout alone, which no method here changes.
same_layout :
    (old : Tables) (events : List Event) (balances : List Balance) (items : List Item)
    (org loc : Uuid) (zone_id bin_id : Option Uuid)
    → lies_at
        (record old { events = events; balances = balances; items = items })
        org
        loc
        zone_id
        bin_id
      ≡ lies_at old org loc zone_id bin_id
unfolding lies_at
same_layout old events balances items org loc none none = refl
same_layout old events balances items org loc none (some b) = refl
same_layout old events balances items org loc (some z) none = refl
same_layout old events balances items org loc (some z) (some b) = refl

All-LiesWell :
    (old : Tables) (events : List Event) (balances : List Balance) (items : List Item)
    (rows : List Balance)
    → All (LiesWell old) rows
    → All (LiesWell (record old { events = events; balances = balances; items = items })) rows
All-LiesWell old events balances items [] h = tt
All-LiesWell old events balances items (b ∷ rows) h = (
  same_layout old events balances items b.organization_id b.location_id b.zone_id b.bin_id ∙ h.0,
  All-LiesWell old events balances items rows h.1,
)

adjust-IsPlaced : (ctx : RequestContext) (input : AdjustInput) → Keeps IsPlaced (adjust ctx input)
adjust-IsPlaced ctx input = record {
  at = λ db h. Returns-of IsPlaced (adjust ctx input db).0 (adjust ctx input db).1 λ out e.
      let (_, _, _, _, lies) = adjust_returns ctx input db out e in
      rw (adjust_writes ctx input db out e) (record {
        rows =
            All-LiesWell db (adjusted ctx input db).events (adjusted ctx input db).balances db.items
              _
              (upsert-LiesWell db (new_balance ctx input db) db.balances
                (placement_lies db _ _ _ _ lies) h.rows);
      });
}

items-IsPlaced :
    (db : Tables) (items : List Item) → IsPlaced db → IsPlaced (record db { items = items })
items-IsPlaced db items h = record {
  rows = All-LiesWell db db.events db.balances items db.balances h.rows;
}

-- If every balance that names a zone lies in an active zone of an active warehouse at its location,
-- and on an active shelf of that zone if it names one, and no balance names a shelf alone, then that
-- still holds after any request, whatever its outcome and the driver's failures.
pub serve-IsPlaced :
    (d : Driver) (ctx : RequestContext) (r : Request) (p : Pool Tables)
    → IsPlaced p.database
    → IsPlaced (serve d ctx r p).database
unfolding serve
serve-IsPlaced d ctx (adjust_stock input) p h =
    run_keeps IsPlaced d _ p (adjust-IsPlaced ctx input) h
serve-IsPlaced d ctx (create id input) p h =
    run_keeps IsPlaced d _ p (create_item-P IsPlaced adjust-IsPlaced items-IsPlaced id ctx input) h
serve-IsPlaced d ctx (move item to) p h =
    run_keeps IsPlaced d _ p (move_item-P IsPlaced adjust-IsPlaced items-IsPlaced ctx item to) h
