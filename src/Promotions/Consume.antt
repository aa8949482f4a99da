-- ===== src/Promotions/Consume.antt =====
-- apps/api/src/promotions.service.ts: `consume`, with the constraint that an order has one
-- redemption at most.
use daja_platform.Base.{
  ℕ, ◌+◌, Bool, false, not, Option, none, some, ◌∷◌, ◌&&◌, ◌==◌, any, length, where_rows, find_row,
  update_rows, Action, pure, gets, modify, raise_if, or_raise, ◌>>=◌, ◌>>◌,
}
use daja_platform.Context.{Uuid, same_id}
use daja_platform.Security.Errors.{validation_failed, other_error}
use daja_platform.Promotions.Schema.{Promotion, PromotionResolution, Principal, Redemption, Tables}
use daja_platform.Promotions.Resolve.{used_up}

abbrev pub is_live_promotion : Uuid → Uuid → Promotion → Bool
is_live_promotion org id p = p.organization_id == org && p.id == id && not p.deleted

abbrev pub is_redemption_by : Uuid → Uuid → Uuid → Redemption → Bool
is_redemption_by org promotion customer r =
    r.organization_id == org && r.promotion_id == promotion && same_id r.customer_id (some customer)

abbrev pub count_by : Uuid → Uuid → Uuid → Tables → ℕ
count_by org promotion customer db =
    length (where_rows (is_redemption_by org promotion customer) db.redemptions)

abbrev pub customer_id_of : Option Principal → Option Uuid
customer_id_of none = none
customer_id_of (some customer) = some customer.customer_id

-- The test on the customer's own limit.
abbrev pub used_up_by : Uuid → Promotion → Option Principal → Tables → Bool
used_up_by org p none db = false
used_up_by org p (some customer) db =
    used_up p.per_customer_usage_limit (count_by org p.id customer.customer_id db)

abbrev pub used_once : Promotion → Promotion
used_once p = record p { uses_count = p.uses_count + 1 }

unfoldable pub insert_redemption : Redemption → Action Tables (Unit {0})
insert_redemption r = do
  taken ← gets (λ db. any (λ q. q.order_id == r.order_id) db.redemptions)
  raise_if taken (other_error "duplicate key value violates unique constraint")
  modify (λ db. record db { redemptions = r ∷ db.redemptions })

-- The row of the INSERT.
abbrev pub redemption_of :
    Uuid → Promotion → PromotionResolution → Option Principal → Uuid → Redemption
redemption_of org p resolution customer order_id = record {
  organization_id = org;
  promotion_id = p.id;
  order_id = order_id;
  customer_id = customer_id_of customer;
  code = p.code;
  discount_amount = resolution.discount_amount;
  free_shipping = resolution.free_shipping;
}

unfoldable pub consume_row :
    Uuid → PromotionResolution → Option Principal → Uuid → Promotion → Action Tables (Unit {0})
unfolding insert_redemption
consume_row org resolution customer order_id p = do
  raise_if (not p.active) (validation_failed "no longer active")
  raise_if (used_up p.total_usage_limit p.uses_count) (validation_failed "used up")
  spent ← gets (used_up_by org p customer)
  raise_if spent (validation_failed "used up by customer")
  modify (λ db. record db { promotions = update_rows (λ q. q.id == p.id) used_once db.promotions })
  insert_redemption (redemption_of org p resolution customer order_id)

-- A code that a resolution names is never empty.
unfoldable pub consume :
    Uuid → PromotionResolution → Option Principal → Uuid → Action Tables (Unit {0})
unfolding consume_row
consume org resolution customer order_id = elim resolution.promotion_id [
  | none ↦ pure tt
  | some id ↦ do
    row ← gets (λ db. find_row (is_live_promotion org id) db.promotions)
    p ← or_raise row (validation_failed "no longer active")
    consume_row org resolution customer order_id p
]
