-- ===== src/Inventory/Audit.antt =====
-- The event log explains the stock after every method, run in a transaction as the controllers
-- run them.
use daja_platform.Base.{List, ◌∙◌}
use daja_platform.Context.{Uuid, RequestContext}
use daja_platform.Inventory.Schema.{Tables, Item}
use daja_platform.Inventory.Adjust.{AdjustInput, ItemInput, adjust}
use daja_platform.Inventory.Items.{create_item, move_item}
use daja_platform.Inventory.Ledger.{IsLedger, quantity_at-items, adjust-IsLedger}
use daja_platform.Inventory.Bounds.{
  IsStocked, create_item-IsStocked, move_item-IsStocked, adjust-IsStocked,
}
use daja_platform.Inventory.Methods.{create_item-P, move_item-P}
use daja_platform.Transactions.{Driver, Pool, run}
use daja_platform.Transactions.Atomicity.{run_keeps}

items-IsLedger :
    (db : Tables) (items : List Item) → IsLedger db → IsLedger (record db { items = items })
items-IsLedger db items h = record {
  explained = λ org loc var. quantity_at-items org loc var db items ∙ h.explained org loc var;
}

pub data Request : Type 0 where
  adjust_stock : AdjustInput → Request
  create : Uuid → ItemInput → Request
  move : Uuid → Uuid → Request

-- The write that a request makes, run by the transaction manager.
unfoldable pub serve : Driver → RequestContext → Request → Pool Tables → Pool Tables
serve d ctx (adjust_stock input) p = (run d (adjust ctx input) p).1
serve d ctx (create id input) p = (run d (create_item id ctx input) p).1
serve d ctx (move item to) p = (run d (move_item ctx item to) p).1

-- If every balance is the sum of the quantity changes logged for its place, then it still is after
-- any request, whatever its outcome and the driver's failures.
pub serve-IsLedger :
    (d : Driver) (ctx : RequestContext) (r : Request) (p : Pool Tables)
    → IsLedger p.database
    → IsLedger (serve d ctx r p).database
unfolding serve
serve-IsLedger d ctx (adjust_stock input) p h =
    run_keeps IsLedger d _ p (adjust-IsLedger ctx input) h
serve-IsLedger d ctx (create id input) p h =
    run_keeps IsLedger d _ p (create_item-P IsLedger adjust-IsLedger items-IsLedger id ctx input) h
serve-IsLedger d ctx (move item to) p h =
    run_keeps IsLedger d _ p (move_item-P IsLedger adjust-IsLedger items-IsLedger ctx item to) h

-- If every balance is at least 0 and at most the largest value of its column, then it still is
-- after any request, whatever its outcome and the driver's failures.
pub serve-IsStocked :
    (d : Driver) (ctx : RequestContext) (r : Request) (p : Pool Tables)
    → IsStocked p.database
    → IsStocked (serve d ctx r p).database
unfolding serve
serve-IsStocked d ctx (adjust_stock input) p h =
    run_keeps IsStocked d _ p (adjust-IsStocked ctx input) h
serve-IsStocked d ctx (create id input) p h =
    run_keeps IsStocked d _ p (create_item-IsStocked id ctx input) h
serve-IsStocked d ctx (move item to) p h =
    run_keeps IsStocked d _ p (move_item-IsStocked ctx item to) h
