-- ===== src/Inventory/Outcome.antt =====
-- What `adjust` writes, as one record of the tables, and when it writes it.
use daja_platform.Base.{
  ◌>>=◌, ◌≡◌, ◌⊎◌, inl, inr, refl, true, Option, ◌∷◌, Result, ok, err, arith, ◌>>=◌,
}
use daja_platform.Base.Int.{ℤ, pos, ◌+ℤ◌, ◌≤ℤ◌}
use daja_platform.Context.{RequestContext, or_null}
use daja_platform.Security.Errors.{AppError}
use daja_platform.Inventory.Schema.{
  Tables, Balance, Event, find_balance, upsert_balance, fits_integer,
}
use daja_platform.Inventory.Adjust.{
  Number, integer, fractional, AdjustInput, Adjusted, quantity_of, next_zone, next_bin,
  assert_storage_placement, adjust,
}

abbrev pub delta_of : Number → ℤ
delta_of (integer d) = d
delta_of fractional = pos 0

module _ (ctx : RequestContext) (input : AdjustInput) (db : Tables) where
  abbrev pub existing : Option Balance
  existing = find_balance ctx.organization_id input.location_id input.variant_id db.balances

  abbrev pub new_quantity : ℤ
  new_quantity = quantity_of existing +ℤ delta_of input.quantity_delta

  abbrev pub new_event : Event
  new_event = record {
    organization_id = ctx.organization_id;
    variant_id = input.variant_id;
    inventory_item_id = or_null input.inventory_item_id;
    quantity_delta = delta_of input.quantity_delta;
    to_location_id = input.location_id;
    source_type = input.source_type;
    source_id = or_null input.source_id;
    actor_user_id = ctx.user_id;
    zone_id = next_zone input.zone_id existing;
    bin_id = next_bin input.zone_id input.bin_id existing;
  }

  abbrev pub new_balance : Balance
  new_balance = record {
    organization_id = ctx.organization_id;
    location_id = input.location_id;
    variant_id = input.variant_id;
    zone_id = next_zone input.zone_id existing;
    bin_id = next_bin input.zone_id input.bin_id existing;
    quantity = new_quantity;
    version = 1;
  }

  abbrev pub adjusted : Tables
  adjusted = record db {
    events = new_event ∷ db.events;
    balances = upsert_balance new_balance db.balances;
  }

  pub adjust_writes :
      (out : Adjusted) → (adjust ctx input db).0 ≡ ok out → (adjust ctx input db).1 ≡ adjusted
  unfolding adjust ◌>>=◌
  adjust_writes out h = ground arith

  pub adjust_returns :
      (out : Adjusted)
      → (adjust ctx input db).0 ≡ ok out
      → (out.previous_quantity ≡ quantity_of existing)
        × (out.quantity ≡ new_quantity)
        × (pos 0 ≤ℤ new_quantity)
        × (fits_integer new_quantity ≡ true)
        × (assert_storage_placement ctx.organization_id input.location_id
              (next_zone input.zone_id existing)
              (next_bin input.zone_id input.bin_id existing)
              db
            ≡ ok tt)
  unfolding adjust ◌>>=◌
  adjust_returns out h = ground arith

-- An adjustment either returns and has written, or raises.
pub adjust_cases :
    (ctx : RequestContext) (input : AdjustInput) (db : Tables)
    → ((out : Adjusted) × (adjust ctx input db ≡ (ok out, adjusted ctx input db)))
      ⊎ ((e : AppError) × ((adjust ctx input db).0 ≡ err e))
adjust_cases ctx input db = outcome (adjust ctx input db).0 refl
  where
    outcome :
        (r : Result Adjusted)
        → (adjust ctx input db).0 ≡ r
        → ((out : Adjusted) × (adjust ctx input db ≡ (ok out, adjusted ctx input db)))
          ⊎ ((e : AppError) × ((adjust ctx input db).0 ≡ err e))
    outcome (ok out) e = inl (out, ground (arith, adjust_writes ctx input db out e, e))
    outcome (err x) e = inr (x, e)
