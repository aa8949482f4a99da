-- ===== src/Inventory/Ledger.antt =====
-- Every balance is the sum of the events of its place: the event log explains the stock.
use daja_platform.Base.{◌≡◌, refl, Bool, List, [], ◌∷◌, ◌&&◌, ◌==◌, if◌then◌else◌, arith}
use daja_platform.Base.Int.{ℤ, pos, ◌+ℤ◌, +ℤ_comm, zero-+ℤ}
use daja_platform.Base.Keeps.{Keeps, Returns-of}
use daja_platform.Context.{Uuid, RequestContext}
use daja_platform.Inventory.Schema.{
  Tables, Balance, Event, Item, has_key, find_balance, upsert_balance,
}
use daja_platform.Inventory.Adjust.{AdjustInput, quantity_of, adjust}
use daja_platform.Inventory.Outcome.{adjusted, new_balance, adjust_writes, delta_of}

abbrev pub concerns : Uuid → Uuid → Uuid → Event → Bool
concerns org loc var e = e.organization_id == org && e.to_location_id == loc && e.variant_id == var

-- The sum of the deltas of the events of a variant at a location.
unfoldable pub tally : Uuid → Uuid → Uuid → List Event → ℤ
tally org loc var [] = pos 0
tally org loc var (e ∷ es) =
    (if concerns org loc var e then e.quantity_delta else pos 0) +ℤ tally org loc var es

unfoldable pub quantity_at : Uuid → Uuid → Uuid → Tables → ℤ
quantity_at org loc var db = quantity_of (find_balance org loc var db.balances)

pub quantity_at-items :
    (org loc var : Uuid) (db : Tables) (items : List Item)
    → quantity_at org loc var (record db { items = items }) ≡ quantity_at org loc var db
unfolding quantity_at
quantity_at-items org loc var db items = refl

pub record IsLedger (db : Tables) : Type 0 where
  pub explained : (org loc var : Uuid) → quantity_at org loc var db ≡ tally org loc var db.events

pub find_balance-upsert :
    (org loc var : Uuid) (b : Balance) (rows : List Balance)
    → quantity_of (find_balance org loc var (upsert_balance b rows))
      ≡ (if has_key org loc var b then b.quantity else quantity_of (find_balance org loc var rows))
unfolding find_balance upsert_balance
find_balance-upsert org loc var b [] = ground arith
find_balance-upsert org loc var b (c ∷ rows) =
    ground (arith, find_balance-upsert org loc var b rows)

-- The stock at every place after an adjustment that returns.
pub quantity_at-adjusted :
    (ctx : RequestContext) (input : AdjustInput) (db : Tables) (org loc var : Uuid)
    → quantity_at org loc var (adjusted ctx input db) ≡ (
        if ctx.organization_id == org && input.location_id == loc && input.variant_id == var
        then quantity_at org loc var db +ℤ delta_of input.quantity_delta
        else quantity_at org loc var db)
unfolding quantity_at
quantity_at-adjusted ctx input db org loc var =
    ground (arith, find_balance-upsert org loc var (new_balance ctx input db) db.balances)

adjusted-IsLedger :
    (ctx : RequestContext) (input : AdjustInput) (db : Tables)
    → IsLedger db
    → IsLedger (adjusted ctx input db)
unfolding tally
adjusted-IsLedger ctx input db h = record {
  explained = λ org loc var.
      let total = tally org loc var db.events in
      ground (
        arith,
        h.explained org loc var,
        quantity_at-adjusted ctx input db org loc var,
        +ℤ_comm (delta_of input.quantity_delta) total,
        zero-+ℤ total,
      );
}

-- An adjustment that returns keeps every balance equal to the sum of its events.
pub adjust-IsLedger :
    (ctx : RequestContext) (input : AdjustInput) → Keeps IsLedger (adjust ctx input)
adjust-IsLedger ctx input = record {
  at = λ db h.
      Returns-of IsLedger (adjust ctx input db).0 (adjust ctx input db).1
        (λ out e. rw (adjust_writes ctx input db out e) (adjusted-IsLedger ctx input db h));
}
