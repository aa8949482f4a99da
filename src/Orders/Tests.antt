-- ===== src/Orders/Tests.antt =====
-- One order in the table, and requests on it.
use daja_platform.Base.{
  ℕ, ◌+◌, ◌≡◌, refl, String, Bool, true, false, Option, none, some, List, [], ◌∷◌, Result, ok, err,
  arith,
}
use daja_platform.Transactions.{Driver, Pool, run}
use daja_platform.Orders.{
  uuid, OrderStore, StatusEntry, CheckoutInput, OrderName, new_order, first_status,
  create_display_id,
}
use daja_platform.Orders.Trace.{IsHistory, IsTraced, IsAttached, latest_status, status_count}
use daja_platform.Orders.Placing.{OrderRequest, handle, run-handle-IsHistory}

abbrev cart : CheckoutInput
cart = record {
  customer_id = some 5;
  email = none;
  phone = none;
  items =
      record {
        product_id = some (uuid 60);
        id = none;
        variant_id = some (uuid 61);
        name = none;
        price = some 1500;
        qty = some 2;
        quantity = none;
      }
      ∷ [];
  subtotal_amount = 3000;
  discount_amount = 0;
  shipping_amount = 400;
  total_amount = 3400;
  promo_code = none;
  shipping_method = "courier";
  payment_method = "cod";
}

abbrev entry : String → StatusEntry
entry status = record { organization_id = 1; order_id = 50; status = status; changed_by = none }

abbrev pool : Pool OrderStore
pool = record {
  database = record {
    orders = new_order 50 1 100000 cart ∷ [];
    order_items = [];
    history = entry first_status ∷ [];
  };
  released = [];
  listeners = 0;
  logged = [];
  leaked = [];
}

abbrev healthy : Driver
healthy = record {
  connect = none;
  begin_fails = none;
  fault = none;
  commit_fails = none;
  rollback_fails = none;
}

traced : IsTraced pool.database.orders pool.database.history
unfolding IsTraced latest_status status_count
traced = (refl, refl, refl, tt)

attached : IsAttached pool.database.orders pool.database.history
unfolding IsAttached
attached = (refl, tt)

history : IsHistory pool.database
history = record { traced = traced; attached = attached }

abbrev sent : OrderRequest
sent = OrderRequest.set_status (OrderName.by_display_id 100000) "Poslato" (some 3)

-- The second draw is free.
drawn : create_display_id (λ k. 100000 + k) 1 pool.database.orders ≡ ok 100001
unfolding create_display_id
drawn = refl

status_set : latest_status 50 (run healthy (handle 1 sent) pool).1.database.history ≡ some "Poslato"
unfolding latest_status run handle daja_platform.Base.◌>>=◌
status_set = refl

placed : (run healthy (handle 1 (OrderRequest.place (λ k. 100000 + k) 51 cart)) pool).0 ≡ ok tt
unfolding run handle daja_platform.Base.◌>>=◌
placed = refl

run-handle-IsHistory_example : IsHistory (run healthy (handle 1 sent) pool).1.database
run-handle-IsHistory_example = run-handle-IsHistory 1 healthy sent pool history
