-- ===== src/Promotions/Admin.antt =====
-- apps/api/src/promotions.service.ts: `create`, `update`, `archive` and `duplicate`, each of which
-- runs in a transaction. The answer is the row; `serializePromotion` only shows it. The code of a
-- copy, from `nextCopyCode`, is an argument.
use mathlib.Core.Option
use daja_platform.Base.{
  ℕ, String, Bool, true, false, not, some, List, ◌∷◌, ◌++◌, map, ◌&&◌, ◌==◌, if◌then◌else◌, any,
  length, where_rows, find_row, update_rows, is_empty, Result, Action, pure, gets, check, modify,
  raise_if, or_raise, ok, err, guard, ◌>>=◌, ◌>>◌,
}
use daja_platform.Context.{Uuid}
use daja_platform.Security.Errors.{validation_failed, other_error}
use daja_platform.Promotions.Schema.{
  DiscountType, fixed, Promotion, Customer, CustomerTarget, TargetType, include_customer,
  exclude_customer, Tables,
}
use daja_platform.Promotions.Consume.{is_live_promotion}
use daja_platform.Promotions.Resolve.{has_code}
use daja_platform.Promotions.Input.{
  JsNumber, fraction, hundredths, at_time, Targets, PromotionInput, Prepared, unique_ids,
}
use daja_platform.Promotions.Prepare.{prepare}

abbrev pub named : List Uuid → Uuid → Bool
named ids id = any (λ i. i == id) ids

-- The customers that are asked for.
abbrev pub is_one_of : Uuid → List Uuid → Customer → Bool
is_one_of org ids c = c.organization_id == org && named ids c.id && not c.deleted

unfoldable pub assert_customer_targets : Uuid → Targets → Tables → Result (Unit {0})
assert_customer_targets org targets db =
    let ids = unique_ids (targets.included ++ targets.excluded) in
    if is_empty ids
    then ok tt
    else if any (named targets.excluded) targets.included
    then err (validation_failed "both included and excluded")
    else guard (length (where_rows (is_one_of org ids) db.customers) == length ids)
        (validation_failed "no such customer")

abbrev pub target_rows : Uuid → TargetType → List Uuid → List CustomerTarget
target_rows promotion kind =
    map (λ id. record { promotion_id = promotion; customer_id = id; target_type = kind })

unfoldable pub replace_customer_targets : Uuid → Targets → Action Tables (Unit {0})
replace_customer_targets promotion targets = modify (λ db. record db {
  targets =
      target_rows promotion include_customer targets.included
      ++ target_rows promotion exclude_customer targets.excluded
      ++ where_rows (λ t. not (t.promotion_id == promotion)) db.targets;
})

-- The columns that INSERT and UPDATE set.
unfoldable pub with_values : Prepared → Promotion → Promotion
with_values v p = record p {
  code = v.code;
  active = v.active;
  discount_type = v.discount_type;
  discount_value = v.discount_value;
  max_discount_amount = v.max_discount_amount;
  applies_to = v.applies_to;
  min_order_amount = v.min_order_amount;
  min_eligible_quantity = v.min_eligible_quantity;
  starts_at = v.starts_at;
  ends_at = v.ends_at;
  total_usage_limit = v.total_usage_limit;
  per_customer_usage_limit = v.per_customer_usage_limit;
  login_requirement = v.login_requirement;
  requires_verified_email = v.requires_verified_email;
  requires_newsletter = v.requires_newsletter;
  first_order_only = v.first_order_only;
  min_customer_order_count = v.min_customer_order_count;
  max_customer_order_count = v.max_customer_order_count;
  min_customer_lifetime_spend = v.min_customer_lifetime_spend;
  allowed_shipping_methods = v.allowed_shipping_methods;
  allowed_payment_methods = v.allowed_payment_methods;
  product_rules = v.product_rules;
}

-- `id` is the key that the database makes for the new row.
unfoldable pub new_promotion : Uuid → Uuid → Prepared → Promotion
new_promotion id org v = record {
  id = id;
  organization_id = org;
  code = v.code;
  active = v.active;
  deleted = false;
  discount_type = v.discount_type;
  discount_value = v.discount_value;
  max_discount_amount = v.max_discount_amount;
  applies_to = v.applies_to;
  min_order_amount = v.min_order_amount;
  min_eligible_quantity = v.min_eligible_quantity;
  starts_at = v.starts_at;
  ends_at = v.ends_at;
  total_usage_limit = v.total_usage_limit;
  uses_count = 0;
  per_customer_usage_limit = v.per_customer_usage_limit;
  login_requirement = v.login_requirement;
  requires_verified_email = v.requires_verified_email;
  requires_newsletter = v.requires_newsletter;
  first_order_only = v.first_order_only;
  min_customer_order_count = v.min_customer_order_count;
  max_customer_order_count = v.max_customer_order_count;
  min_customer_lifetime_spend = v.min_customer_lifetime_spend;
  allowed_shipping_methods = v.allowed_shipping_methods;
  allowed_payment_methods = v.allowed_payment_methods;
  product_rules = v.product_rules;
}

unfoldable pub create : Uuid → Uuid → PromotionInput → Action Tables Promotion
unfolding assert_customer_targets replace_customer_targets new_promotion
create id org input = do
  v ← check (λ _. prepare input)
  check (assert_customer_targets org v.customer_targets)
  taken ← gets (λ db. any (has_code org v.code) db.promotions)
  raise_if taken (other_error "duplicate key value violates unique constraint")
  let p = new_promotion id org v
  modify (λ db. record db { promotions = p ∷ db.promotions })
  replace_customer_targets id v.customer_targets
  pure p

-- Another live promotion of the organization has the code.
abbrev pub takes_code : Uuid → Uuid → String → Promotion → Bool
takes_code org id code p = has_code org code p && not (p.id == id)

unfoldable pub update : Uuid → Uuid → PromotionInput → Action Tables Promotion
unfolding assert_customer_targets replace_customer_targets with_values
update org id input = do
  v ← check (λ _. prepare input)
  row ← gets (λ db. find_row (is_live_promotion org id) db.promotions)
  p ← or_raise row (validation_failed "not found")
  check (assert_customer_targets org v.customer_targets)
  taken ← gets (λ db. any (takes_code org id v.code) db.promotions)
  raise_if taken (other_error "duplicate key value violates unique constraint")
  modify (λ db. record db {
    promotions = update_rows (is_live_promotion org id) (with_values v) db.promotions;
  })
  replace_customer_targets id v.customer_targets
  pure (with_values v p)

abbrev pub archived : Promotion → Promotion
archived p = record p { active = false; deleted = true }

unfoldable pub archive : Uuid → Uuid → Action Tables (Unit {0})
archive org id = do
  count ← gets (λ db. length (where_rows (is_live_promotion org id) db.promotions))
  modify (λ db. record db {
    promotions = update_rows (is_live_promotion org id) archived db.promotions;
  })
  raise_if (not (count == 1)) (validation_failed "not found")

-- A count as a JavaScript number.
abbrev pub whole : ℕ → JsNumber
whole n = fraction n 0

-- An amount of the row, divided by 100, if the discount is a fixed amount.
abbrev pub shown_value : DiscountType → ℕ → JsNumber
shown_value fixed value = hundredths value
shown_value _ value = whole value

abbrev pub customers_of : Uuid → Tables → Targets
customers_of id db = record {
  included =
      map (λ t. t.customer_id)
        (where_rows
          (λ t.
            t.promotion_id == id
            && elim t.target_type [ include_customer ↦ true | exclude_customer ↦ false ])
          db.targets);
  excluded =
      map (λ t. t.customer_id)
        (where_rows
          (λ t.
            t.promotion_id == id
            && elim t.target_type [ include_customer ↦ false | exclude_customer ↦ true ])
          db.targets);
}

-- The input of the copy.
unfoldable pub copy_of : String → Targets → Promotion → PromotionInput
copy_of code targets source = record {
  code = code;
  active = some false;
  discount_type = source.discount_type;
  discount_value = shown_value source.discount_type source.discount_value;
  max_discount_amount = Option.map hundredths source.max_discount_amount;
  applies_to = some source.applies_to;
  min_order_amount = some (hundredths source.min_order_amount);
  min_eligible_quantity = some (whole source.min_eligible_quantity);
  starts_at = Option.map at_time source.starts_at;
  ends_at = Option.map at_time source.ends_at;
  total_usage_limit = Option.map whole source.total_usage_limit;
  per_customer_usage_limit = Option.map whole source.per_customer_usage_limit;
  login_requirement = some source.login_requirement;
  requires_verified_email = source.requires_verified_email;
  requires_newsletter = source.requires_newsletter;
  first_order_only = source.first_order_only;
  min_customer_order_count = Option.map whole source.min_customer_order_count;
  max_customer_order_count = Option.map whole source.max_customer_order_count;
  min_customer_lifetime_spend = Option.map hundredths source.min_customer_lifetime_spend;
  allowed_shipping_methods = source.allowed_shipping_methods;
  allowed_payment_methods = source.allowed_payment_methods;
  product_rules = source.product_rules;
  customer_targets = targets;
}

unfoldable pub duplicate : Uuid → Uuid → Uuid → String → Action Tables Promotion
unfolding copy_of
duplicate new_id org id code = do
  row ← gets (λ db. find_row (is_live_promotion org id) db.promotions)
  source ← or_raise row (validation_failed "not found")
  targets ← gets (customers_of id)
  create new_id org (copy_of code targets source)
