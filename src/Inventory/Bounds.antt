-- ===== src/Inventory/Bounds.antt =====
-- Stock is never negative, and always fits the `integer` column that holds it.
use daja_platform.Base.{List, [], ◌∷◌, All, arith}
use daja_platform.Base.Int.{pos, ◌≤ℤ◌}
use daja_platform.Base.Keeps.{Keeps, Returns-of}
use daja_platform.Context.{Uuid, RequestContext}
use daja_platform.Inventory.Schema.{Tables, Balance, upsert_balance}
use daja_platform.Inventory.Adjust.{AdjustInput, ItemInput, adjust}
use daja_platform.Inventory.Outcome.{new_balance, adjust_writes, adjust_returns}
use daja_platform.Inventory.Items.{create_item, move_item}
use daja_platform.Inventory.Methods.{create_item-P, move_item-P}

abbrev pub InRange : Balance → Type 0
InRange b = (pos 0 ≤ℤ b.quantity) × (b.quantity ≤ℤ pos 2147483647)

pub record IsStocked (db : Tables) : Type 0 where
  pub rows : All InRange db.balances

upsert-InRange :
    (b : Balance) (rows : List Balance)
    → InRange b
    → All InRange rows
    → All InRange (upsert_balance b rows)
unfolding upsert_balance
upsert-InRange b [] h hs = (h, tt)
upsert-InRange b (c ∷ rows) h hs = ground (arith, upsert-InRange b rows h hs.1)

pub adjust-IsStocked :
    (ctx : RequestContext) (input : AdjustInput) → Keeps IsStocked (adjust ctx input)
adjust-IsStocked ctx input = record {
  at = λ db h. Returns-of IsStocked (adjust ctx input db).0 (adjust ctx input db).1 λ out e.
      let (_, _, low, fits, _) = adjust_returns ctx input db out e in
      rw (adjust_writes ctx input db out e) (record {
        rows = upsert-InRange (new_balance ctx input db) db.balances (low, ground arith) h.rows;
      });
}

-- Creating an item keeps every balance between 0 and the largest `integer`.
pub create_item-IsStocked :
    (id : Uuid) (ctx : RequestContext) (input : ItemInput)
    → Keeps IsStocked (create_item id ctx input)
create_item-IsStocked =
    create_item-P IsStocked adjust-IsStocked (λ db items h. record { rows = h.rows })

-- Moving an item keeps every balance between 0 and the largest `integer`.
pub move_item-IsStocked :
    (ctx : RequestContext) (item_id to : Uuid) → Keeps IsStocked (move_item ctx item_id to)
move_item-IsStocked =
    move_item-P IsStocked adjust-IsStocked (λ db items h. record { rows = h.rows })
