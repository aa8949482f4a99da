-- ===== src/Promotions/Audience.antt =====
-- apps/api/src/promotions.service.ts: `assertAudience` and `assertCheckoutRules`. The messages are
-- told apart by short names, except that the three personal requirements are listed together.
use daja_platform.Base.{
  ℕ, ◌+◌, String, Bool, true, false, not, Option, none, some, List, [], ◌∷◌, ◌++◌, ◌&&◌, ◌||◌, ◌==◌,
  ltb, str_eq, if◌then◌else◌, any, length, where_rows, find_row, is_empty, Result, ok, err, guard,
  and_then,
}
use daja_platform.Context.{Uuid, same_id}
use daja_platform.Security.Errors.{validation_failed}
use daja_platform.Promotions.Schema.{
  LoginRequirement, authenticated, guest, Shipping, courier, shop_pickup, Payment, cod,
  pickup_payment, Promotion, Principal, TargetType, include_customer, exclude_customer,
  CustomerTarget, Customer, Order, Tables,
}

-- What the SELECT on customers returns of a customer.
pub record CustomerStatus : Type 0 where
  pub email_verified : Bool
  pub newsletter_subscribed : Bool
  pub order_count : ℕ
  pub lifetime_spend : ℕ

abbrev pub is_some : {A : Type 0} → Option A → Bool
is_some none = false
is_some (some a) = true

unfoldable pub check_login : LoginRequirement → Option Principal → Result (Unit {0})
check_login authenticated none = err (validation_failed "login required")
check_login guest (some customer) = err (validation_failed "guests only")
check_login _ _ = ok tt

abbrev pub is_target : Uuid → TargetType → CustomerTarget → Bool
is_target promotion include_customer target =
    target.promotion_id == promotion
    && elim target.target_type [ include_customer ↦ true | exclude_customer ↦ false ]
is_target promotion exclude_customer target =
    target.promotion_id == promotion
    && elim target.target_type [ include_customer ↦ false | exclude_customer ↦ true ]

-- `targets.some((target) => target.customer_id === customer?.customerId)`
abbrev pub names_customer : Option Principal → List CustomerTarget → Bool
names_customer none targets = false
names_customer (some customer) targets = any (λ t. t.customer_id == customer.customer_id) targets

unfoldable pub check_targets :
    List CustomerTarget → List CustomerTarget → Option Principal → Result (Unit {0})
check_targets included excluded customer =
    if not (is_empty included) && not (is_some customer)
    then err (validation_failed "selected customers only")
    else if not (is_empty included) && not (names_customer customer included)
    then err (validation_failed "customer has no right")
    else guard (not (names_customer customer excluded)) (validation_failed "customer has no right")

abbrev pub customer_rule_required : Promotion → Bool
customer_rule_required p =
    p.requires_verified_email
    || p.requires_newsletter
    || p.first_order_only
    || is_some p.per_customer_usage_limit
    || is_some p.min_customer_order_count
    || is_some p.max_customer_order_count
    || is_some p.min_customer_lifetime_spend

-- An order counts for a customer by its customer or by its e-mail address.
abbrev pub is_order_of : Customer → Order → Bool
is_order_of c o =
    o.organization_id == c.organization_id
    && not o.deleted
    && (same_id o.customer_id (some c.id) || str_eq o.lowered_email c.normalized_email)

unfoldable pub spend_of : List Order → ℕ
spend_of [] = 0
spend_of (o ∷ os) = o.total_amount + spend_of os

unfoldable pub status_of_customer : Customer → Tables → CustomerStatus
status_of_customer c db = record {
  email_verified = c.email_verified;
  newsletter_subscribed =
      any
        (λ s.
          s.organization_id == c.organization_id
          && str_eq s.normalized_email c.normalized_email
          && s.active)
        db.subscribers;
  order_count = length (where_rows (is_order_of c) db.orders);
  lifetime_spend = spend_of (where_rows (is_order_of c) db.orders);
}

abbrev pub is_customer : Principal → Customer → Bool
is_customer p c = c.organization_id == p.organization_id && c.id == p.customer_id && not c.deleted

-- `missingRequirements`
abbrev pub missing_requirements : Promotion → CustomerStatus → List String
missing_requirements p s =
    (if p.requires_verified_email && not s.email_verified then "verify e-mail" ∷ [] else [])
    ++ (if p.requires_newsletter && not s.newsletter_subscribed then "newsletter" ∷ [] else [])
    ++ (if p.first_order_only && ltb 0 s.order_count then "first order only" ∷ [] else [])

abbrev pub below : ℕ → Option ℕ → Bool
below n none = false
below n (some least) = ltb n least

abbrev pub above : ℕ → Option ℕ → Bool
above n none = false
above n (some most) = ltb most n

unfoldable pub check_status : Promotion → CustomerStatus → Result (Unit {0})
check_status p s =
    if not (is_empty (missing_requirements p s))
    then err (validation_failed "missing requirements")
    else if below s.order_count p.min_customer_order_count
    then err (validation_failed "too few orders")
    else if above s.order_count p.max_customer_order_count
    then err (validation_failed "too many orders")
    else guard (not (below s.lifetime_spend p.min_customer_lifetime_spend))
        (validation_failed "too little spend")

unfoldable pub check_customer : Promotion → Option Principal → Tables → Result (Unit {0})
unfolding check_status
check_customer p none db =
    guard (not (customer_rule_required p)) (validation_failed "login required")
check_customer p (some customer) db =
    if not (customer_rule_required p)
    then ok tt
    else elim (find_row (is_customer customer) db.customers) [
      | none ↦ err (validation_failed "account not available")
      | some c ↦ check_status p (status_of_customer c db)
    ]

unfoldable pub assert_audience : Promotion → Option Principal → Tables → Result (Unit {0})
assert_audience p customer db = and_then (check_login p.login_requirement customer) (λ _.
    and_then
      (check_targets (where_rows (is_target p.id include_customer) db.targets)
        (where_rows (is_target p.id exclude_customer) db.targets) customer)
      (λ _. check_customer p customer db))

abbrev pub same_shipping : Shipping → Shipping → Bool
same_shipping courier courier = true
same_shipping shop_pickup shop_pickup = true
same_shipping _ _ = false

abbrev pub same_payment : Payment → Payment → Bool
same_payment cod cod = true
same_payment pickup_payment pickup_payment = true
same_payment _ _ = false

-- `method && methods.length && !methods.includes(method)`
abbrev pub shipping_refused : List Shipping → Option Shipping → Bool
shipping_refused methods none = false
shipping_refused methods (some m) = not (is_empty methods) && not (any (same_shipping m) methods)

abbrev pub payment_refused : List Payment → Option Payment → Bool
payment_refused methods none = false
payment_refused methods (some m) = not (is_empty methods) && not (any (same_payment m) methods)

unfoldable pub assert_checkout_rules :
    Promotion → Option Shipping → Option Payment → Result (Unit {0})
assert_checkout_rules p shipping payment =
    if shipping_refused p.allowed_shipping_methods shipping
    then err (validation_failed "shipping method")
    else guard (not (payment_refused p.allowed_payment_methods payment))
        (validation_failed "payment method")
