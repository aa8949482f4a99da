-- ===== src/Promotions/Tests.antt =====
-- A promotion of ten percent from a threshold on, used once, and the theorems at it.
use daja_platform.Promotions.Double.{hundredth, percent}
use daja_platform.Base.{
  ℕ, ◌≡◌, ◌≢◌, ◌≤◌, ◌⊎◌, refl, str_eq, String, true, false, Option, none, some, List, [], ◌∷◌, All,
  Result, ok, arith,
}
use daja_platform.Base.Int.{ℤ}
use daja_platform.Promotions.Scope.{is_eligible, scope_has_rules}
use daja_platform.Json.{end}
use daja_platform.Transactions.{Driver, Pool, run}
use daja_platform.Promotions.Schema.{
  Promotion, PromotionScope, ProductRules, CartLine, PromotionResolution, Principal, Tables,
  percentage, fixed, order, anyone, total_of, quantity_of_all,
}
use daja_platform.Promotions.Audience.{
  assert_audience, check_login, check_targets, check_customer, assert_checkout_rules,
}
use daja_platform.Promotions.Resolve.{
  Cart, resolve, resolve_found, check_promotion, price, discount_of, discount_before_cap,
  empty_resolution,
}
use daja_platform.Promotions.Consume.{consume}
use daja_platform.Promotions.Input.{PromotionInput, Prepared, fraction, hundredths, at_time}
use daja_platform.Promotions.Prepare.{
  prepare, prepare_value, prepare_period, prepare_history, prepare_limits, prepare_cap,
  normalize_code, normalize_product_rules, normalize_scope, assembled,
}
use daja_platform.Promotions.Admin.{duplicate}
use daja_platform.Promotions.Honour.{IsHonoured, resolve-IsHonoured, resolve-le, percentage_of}
use daja_platform.Promotions.Limits.{IsCounted, run-consume-IsCounted}
use daja_platform.Promotions.Storable.{IsStorable, prepare-IsStorable}
use daja_platform.Promotions.Copy.{duplicate_refused}

abbrev anything : PromotionScope
anything = record {
  product_ids = [];
  variant_ids = [];
  category_ids = [];
  brand_ids = [];
  department_ids = [];
  specifications = [];
}

abbrev no_rules : ProductRules
no_rules = record { included = anything; excluded = anything }

abbrev welcome : ℕ → Promotion
welcome threshold = record {
  id = 7;
  organization_id = 1;
  code = "WELCOME";
  active = true;
  deleted = false;
  discount_type = percentage;
  discount_value = 10;
  max_discount_amount = none;
  applies_to = order;
  min_order_amount = threshold;
  min_eligible_quantity = 1;
  starts_at = none;
  ends_at = some 1000;
  total_usage_limit = some 1;
  uses_count = 0;
  per_customer_usage_limit = none;
  login_requirement = anyone;
  requires_verified_email = false;
  requires_newsletter = false;
  first_order_only = false;
  min_customer_order_count = none;
  max_customer_order_count = none;
  min_customer_lifetime_spend = none;
  allowed_shipping_methods = [];
  allowed_payment_methods = [];
  product_rules = no_rules;
}

abbrev tables : ℕ → Tables
tables threshold = record {
  promotions = welcome threshold ∷ [];
  targets = [];
  customers = [];
  subscribers = [];
  orders = [];
  redemptions = [];
}

abbrev watch : CartLine
watch = record {
  product_id = 50;
  variant_id = 51;
  category_id = none;
  brand_id = none;
  department_id = none;
  price = 20000;
  quantity = 2;
  attributes = end;
  specification_values = end;
}

abbrev same_text : String → String
same_text s = s

abbrev no_digits : ℤ → String
no_digits n = ""

abbrev lines : Tables → Result (List CartLine)
lines db = ok (watch ∷ [])

abbrev visitor : Cart
visitor = record {
  organization_id = 1;
  customer = none;
  shipping_method = none;
  payment_method = none;
}

abbrev answer : PromotionResolution
answer = record {
  promotion_id = some 7;
  code = some "WELCOME";
  discount_amount = 4000;
  free_shipping = false;
  subtotal_amount = some 40000;
  eligible_subtotal_amount = some 40000;
}

answered : resolve same_text str_eq no_digits visitor "WELCOME" 5 lines (tables 30000) ≡ ok answer
unfolding resolve resolve_found check_promotion price discount_of assert_audience check_login
    check_targets check_customer assert_checkout_rules total_of quantity_of_all is_eligible
    scope_has_rules discount_before_cap percent
answered = refl

resolve-IsHonoured_example :
    ((str_eq "WELCOME" "" ≡ true) × (answer ≡ empty_resolution))
    ⊎ IsHonoured same_text str_eq no_digits visitor "WELCOME" 5 lines (tables 30000) answer
resolve-IsHonoured_example =
    resolve-IsHonoured same_text str_eq no_digits visitor "WELCOME" 5 lines (tables 30000) answer
      answered

valid : All (λ p. percentage_of p.discount_type p.discount_value ≤ 100) (tables 30000).promotions
valid = (omega arith, tt)

resolve-le_example : answer.discount_amount ≤ 40000
resolve-le_example =
    resolve-le same_text str_eq no_digits visitor "WELCOME" 5 lines (tables 30000) answer valid
      answered 40000 refl (omega arith)

abbrev healthy : Driver
healthy = record {
  connect = none;
  begin_fails = none;
  fault = none;
  commit_fails = none;
  rollback_fails = none;
}

abbrev pool : Pool Tables
pool = record { database = tables 0; released = []; listeners = 0; logged = []; leaked = [] }

pool-IsCounted : IsCounted pool.database
pool-IsCounted = record {
  distinct = (tt, tt);
  counted = (refl, tt);
  within_total = (refl, tt);
  within_share = λ customer. (refl, tt);
}

abbrev buyer : Option Principal
buyer = some (record { organization_id = 1; customer_id = 9 })

run-consume-IsCounted_example : IsCounted (run healthy (consume 1 answer buyer 80) pool).1.database
run-consume-IsCounted_example = run-consume-IsCounted healthy 1 answer buyer 80 pool pool-IsCounted

abbrev offer : PromotionInput
offer = record {
  code = "SUMMER-10";
  active = none;
  discount_type = percentage;
  discount_value = fraction 10 0;
  max_discount_amount = some (fraction 50 0);
  applies_to = none;
  min_order_amount = none;
  min_eligible_quantity = none;
  starts_at = some (at_time 5);
  ends_at = some (at_time 9);
  total_usage_limit = some (fraction 3 0);
  per_customer_usage_limit = none;
  login_requirement = none;
  requires_verified_email = false;
  requires_newsletter = false;
  first_order_only = false;
  min_customer_order_count = none;
  max_customer_order_count = none;
  min_customer_lifetime_spend = none;
  allowed_shipping_methods = [];
  allowed_payment_methods = [];
  product_rules = no_rules;
  customer_targets = record { included = []; excluded = [] };
}

abbrev offered : Prepared
offered =
    assembled offer 10 (record { starts_at = some 5; ends_at = some 9 })
      (record { least = none; most = none; per_customer = none }) no_rules
      (record {
        code = "SUMMER-10";
        cap = some 5000;
        min_order = none;
        min_quantity = none;
        total = some 3;
        spend = none;
      })

offer_prepared : prepare offer ≡ ok offered
unfolding prepare prepare_value prepare_period prepare_history prepare_limits prepare_cap
    normalize_code normalize_product_rules normalize_scope
offer_prepared = refl

-- 1 / 256 is below half a hundredth.
tiny_amount : prepare_value fixed (fraction 1 8) ≡ ok 0
unfolding prepare_value
tiny_amount = refl

-- JavaScript's 50 * 0.57 is a little below 28.5.
rounded_down : percent 50 57 ≡ 28
unfolding percent
rounded_down = refl

-- 0.57 * 100 is 56.99999999999999, and an amount of 0.57 is 57 hundredths all the same.
read_amount : prepare_value fixed (hundredths 57) ≡ ok 57
unfolding prepare_value hundredth
read_amount = refl

prepare-IsStorable_example : IsStorable offer offered
prepare-IsStorable_example = prepare-IsStorable offer offered offer_prepared

duplicate_refused_example : (duplicate 8 1 7 "WELCOME-1" (tables 0)).0 ≢ ok (welcome 0)
duplicate_refused_example =
    duplicate_refused 8 1 7 "WELCOME-1" (tables 0) (welcome 0) (welcome 0) refl refl
