-- ===== src/Orders/Placing.antt =====
-- A new order has its history from the start; and every request keeps the history.
use mathlib.Core.Path.{subst}
use daja_platform.Base.{
  ℕ, ◌≡◌, refl, sym, String, false, Option, none, List, [], ◌∷◌, any, map, ok, Action, pure, arith,
  ◌>>=◌, Bool-cases, inl, inr,
}
use daja_platform.Base.Keeps.{Keeps, Keeps-bind, Keeps-check, Keeps-pure, Returns-of}
use daja_platform.Context.{Uuid}
use daja_platform.Transactions.{Driver, Pool, run}
use daja_platform.Transactions.Atomicity.{run_keeps}
use daja_platform.Orders.{
  Order, OrderItem, OrderStore, StatusEntry, CheckoutInput, CartItem, OrderName, is_clash,
  insert_items, store_order, create_order, new_order, order_item, update_order_status,
  mark_order_read, is_storable,
}
use daja_platform.Orders.Trace.{
  IsHistory, IsTraced, IsAttached, latest_status, status_count, has_order, IsTraced-other,
  none_identified,
}
use daja_platform.Orders.Requests.{update_order_status-IsHistory, mark_order_read-IsHistory}

-- Items are written beside the orders and their history.
insert_items-beside :
    (items : List OrderItem) (db : OrderStore)
    → ((insert_items items db).1.orders ≡ db.orders)
      × ((insert_items items db).1.history ≡ db.history)
unfolding insert_items ◌>>=◌
insert_items-beside [] db = (refl, refl)
insert_items-beside (i ∷ is) db = elim (Bool-cases (is_storable i)) [
  | inl t ↦
      let next = insert_items-beside is (record db { order_items = i ∷ db.order_items }) in
      (ground (arith, t, next.0), ground (arith, t, next.1))
  | inr n ↦ (ground (arith, n), ground (arith, n))
]

abbrev first_entry : Order → StatusEntry
first_entry o = record {
  organization_id = o.organization_id;
  order_id = o.id;
  status = o.status;
  changed_by = none;
}

store_order_returns :
    (o : Order) (items : List CartItem) (db : OrderStore) (a : Order)
    → (store_order o items db).0 ≡ ok a
    → (any (is_clash o) db.orders ≡ false)
      × ((store_order o items db).1.orders ≡ o ∷ db.orders)
      × ((store_order o items db).1.history ≡ first_entry o ∷ db.history)
unfolding store_order ◌>>=◌
store_order_returns o items db a h =
    let rows : List OrderItem = map (order_item o.organization_id o.id) items in
    let placed : OrderStore = record db { orders = o ∷ db.orders } in
    let beside = insert_items-beside rows placed in
    elim (Bool-cases (any (is_clash o) db.orders)) [
      | inl t ↦ ground (arith, t, h)
      | inr n ↦ (n, ground (arith, n, h, beside.0), ground (arith, n, h, beside.1))
    ]

-- A new id has no entries.
status_count-fresh :
    (id : Uuid) (os : List Order) (h : List StatusEntry)
    → has_order id os ≡ false
    → IsAttached os h
    → status_count id h ≡ 0
unfolding IsAttached status_count
status_count-fresh id os [] n k = refl
status_count-fresh id os (e ∷ h) n k = ground (arith, n, k.0, status_count-fresh id os h n k.1)

IsAttached-insert :
    (o : Order) (os : List Order) (h : List StatusEntry) → IsAttached os h → IsAttached (o ∷ os) h
unfolding IsAttached
IsAttached-insert o os [] k = tt
IsAttached-insert o os (e ∷ h) k = (ground (arith, k.0), IsAttached-insert o os h k.1)

placed-IsHistory :
    (o : Order) (db after : OrderStore)
    → o.version ≡ 1
    → any (is_clash o) db.orders ≡ false
    → after.orders ≡ o ∷ db.orders
    → after.history ≡ first_entry o ∷ db.history
    → IsHistory db
    → IsHistory after
unfolding IsTraced IsAttached latest_status status_count
placed-IsHistory o db after one free orders history k =
    let fresh = none_identified o db.orders free in
    let none_yet = status_count-fresh o.id db.orders db.history fresh k.attached in
    let traced : IsTraced (o ∷ db.orders) (first_entry o ∷ db.history) = (
      ground arith,
      ground (arith, one, none_yet),
      free,
      IsTraced-other db.orders db.history (first_entry o) fresh k.traced,
    ) in
    let attached : IsAttached (o ∷ db.orders) (first_entry o ∷ db.history) =
      (ground arith, IsAttached-insert o db.orders db.history k.attached) in
    record {
      traced =
          subst (λ os. IsTraced os after.history) (sym orders)
            (subst (IsTraced (o ∷ db.orders)) (sym history) traced);
      attached =
          subst (λ os. IsAttached os after.history) (sym orders)
            (subst (IsAttached (o ∷ db.orders)) (sym history) attached);
    }

store_order-IsHistory :
    (o : Order) (items : List CartItem) → o.version ≡ 1 → Keeps IsHistory (store_order o items)
store_order-IsHistory o items one = record {
  at = λ db k. Returns-of IsHistory (store_order o items db).0 (store_order o items db).1 λ a h.
      let (free, orders, history) = store_order_returns o items db a h in
      placed-IsHistory o db (store_order o items db).1 one free orders history k;
}

create_order-IsHistory :
    (draws : ℕ → ℕ) (id org : Uuid) (input : CheckoutInput)
    → Keeps IsHistory (create_order draws id org input)
unfolding create_order
create_order-IsHistory draws id org input =
    Keeps-bind IsHistory _ _ (Keeps-check IsHistory _)
      λ display. store_order-IsHistory (new_order id org display input) input.items refl

pub data OrderRequest : Type 0 where
  place : (ℕ → ℕ) → Uuid → CheckoutInput → OrderRequest
  set_status : OrderName → String → Option Uuid → OrderRequest
  read : OrderName → OrderRequest

unfoldable pub handle : Uuid → OrderRequest → Action OrderStore (Unit {0})
unfolding create_order update_order_status mark_order_read
handle org (place draws id input) = create_order draws id org input >>= λ _. pure tt
handle org (set_status name status user) = update_order_status org name status user >>= λ _. pure tt
handle org (read name) = mark_order_read org name

handle-IsHistory : (org : Uuid) (r : OrderRequest) → Keeps IsHistory (handle org r)
unfolding handle
handle-IsHistory org (place draws id input) =
    Keeps-bind IsHistory _ _ (create_order-IsHistory draws id org input)
      λ _. Keeps-pure IsHistory tt
handle-IsHistory org (set_status name status user) =
    Keeps-bind IsHistory _ _ (update_order_status-IsHistory org name status user)
      λ _. Keeps-pure IsHistory tt
handle-IsHistory org (read name) = mark_order_read-IsHistory org name

-- The newest entry in an order's history is its status, and its version is the number of its
-- entries; no two orders have one id, no two live ones of an organization one display id, and every
-- entry is of an order. Whatever is requested of the orders, in a transaction of any driver, keeps
-- this of the database, answered or not.
pub run-handle-IsHistory :
    (org : Uuid) (d : Driver) (r : OrderRequest) (p : Pool OrderStore)
    → IsHistory p.database
    → IsHistory (run d (handle org r) p).1.database
run-handle-IsHistory org d r p = run_keeps IsHistory d (handle org r) p (handle-IsHistory org r)
