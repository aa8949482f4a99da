-- ===== src/Promotions/Prepare.antt =====
-- apps/api/src/promotions.service.ts: `preparePromotion` and the input that `duplicate` gives it.
-- The name and the descriptions are left out, and the code is given trimmed and in capitals. An id
-- is an id, so `isUuid` holds of it. A specification rule is given with its texts trimmed and cut.
use Prim.Native.Char.{code}
use daja_platform.Base.{
  ℕ, String, Bool, true, false, not, Option, none, some, List, [], ◌∷◌, ◌&&◌, ◌||◌, ◌==◌, ltb, leb,
  str_eq, if◌then◌else◌, any, all, is_empty, length, Result, ok, err, guard, and_then,
}
use daja_platform.Security.Errors.{validation_failed}
use daja_platform.Promotions.Schema.{
  DiscountType, percentage, fixed, free_shipping, eligible_items, LoginRequirement, anyone, guest,
  PromotionScope, ProductRules,
}
use daja_platform.Promotions.Audience.{is_some, same_shipping, same_payment}
use daja_platform.Promotions.Input.{
  JsNumber, Targets, PromotionInput, Prepared, money_to_minor, integer_in_range, optional,
  optional_money, optional_integer, read_date, or_value_of, dedupe, unique_ids,
}

unfoldable pub normalize_scope : PromotionScope → Result PromotionScope
normalize_scope scope =
    if any (λ rule. str_eq rule.value "") scope.specifications
    then err (validation_failed "specification rule")
    else ok (record {
      product_ids = unique_ids scope.product_ids;
      variant_ids = unique_ids scope.variant_ids;
      category_ids = unique_ids scope.category_ids;
      brand_ids = unique_ids scope.brand_ids;
      department_ids = unique_ids scope.department_ids;
      specifications = scope.specifications;
    })

unfoldable pub normalize_product_rules : ProductRules → Result ProductRules
normalize_product_rules rules = and_then (normalize_scope rules.included) (λ included.
    and_then (normalize_scope rules.excluded)
      (λ excluded. ok (record { included = included; excluded = excluded })))

-- `/^[A-Z0-9][A-Z0-9_-]{2,39}$/`
abbrev pub is_letter_or_digit : ℕ → Bool
is_letter_or_digit c = (leb b'A' c && leb c b'Z') || (leb b'0' c && leb c b'9')

abbrev pub codes_of : String → List ℕ
codes_of String.[] = []
codes_of (String.◌∷◌ c s) = code c ∷ codes_of s

abbrev pub is_code : List ℕ → Bool
is_code [] = false
is_code (c ∷ cs) =
    is_letter_or_digit c
    && all (λ d. is_letter_or_digit d || d == b'_' || d == b'-') cs
    && leb 2 (length cs)
    && leb (length cs) 39

unfoldable pub normalize_code : String → Result String
normalize_code text = if is_code (codes_of text) then ok text else err (validation_failed "code")

unfoldable pub prepare_value : DiscountType → JsNumber → Result ℕ
unfolding money_to_minor
prepare_value fixed value = money_to_minor value
prepare_value free_shipping value = ok 0
prepare_value percentage value = integer_in_range 1 100 value

abbrev pub both_in_order : Option ℕ → Option ℕ → Bool
both_in_order (some a) (some b) = ltb a b
both_in_order _ _ = true

abbrev pub both_at_most : Option ℕ → Option ℕ → Bool
both_at_most (some a) (some b) = leb a b
both_at_most _ _ = true

abbrev pub is_guest : LoginRequirement → Bool
is_guest guest = true
is_guest _ = false

-- Only a percentage has a cap.
unfoldable pub prepare_cap : DiscountType → Option JsNumber → Result (Option ℕ)
unfolding optional_money
prepare_cap percentage value = optional_money value
prepare_cap _ value = ok none

pub record Period : Type 0 where
  pub starts_at : Option ℕ
  pub ends_at : Option ℕ

unfoldable pub prepare_period : PromotionInput → Result Period
prepare_period input = and_then (optional read_date input.starts_at) λ starts_at.
    and_then (optional read_date input.ends_at) λ ends_at.
      and_then (guard (both_in_order starts_at ends_at) (validation_failed "end before start"))
        λ _. ok (record { starts_at = starts_at; ends_at = ends_at })

-- The rules on a customer's history.
pub record History : Type 0 where
  pub least : Option ℕ
  pub most : Option ℕ
  pub per_customer : Option ℕ

abbrev pub login_of : PromotionInput → LoginRequirement
login_of input = or_value_of input.login_requirement anyone

abbrev pub has_history : PromotionInput → History → Bool
has_history input h =
    is_some h.per_customer || input.first_order_only || is_some h.least || is_some h.most

unfoldable pub prepare_history : PromotionInput → Result History
prepare_history input = and_then (optional_integer 0 input.min_customer_order_count) λ least.
    and_then (optional_integer 0 input.max_customer_order_count) λ most.
      and_then (guard (both_at_most least most) (validation_failed "order counts")) λ _.
        and_then (optional_integer 1 input.per_customer_usage_limit) λ per_customer.
          let h : History = record { least = least; most = most; per_customer = per_customer } in
          and_then
            (guard (not (is_guest (login_of input) && has_history input h))
              (validation_failed "guests have no history"))
            λ _. ok h

abbrev pub targets_of : PromotionInput → Targets
targets_of input = record {
  included = unique_ids input.customer_targets.included;
  excluded = unique_ids input.customer_targets.excluded;
}

abbrev pub needs_account : PromotionInput → Bool
needs_account input =
    input.requires_verified_email
    || input.requires_newsletter
    || not (is_empty (targets_of input).included)

-- The values that are read last, where the result is put together.
pub record Limits : Type 0 where
  pub code : String
  pub cap : Option ℕ
  pub min_order : Option ℕ
  pub min_quantity : Option ℕ
  pub total : Option ℕ
  pub spend : Option ℕ

unfoldable pub prepare_limits : PromotionInput → Result Limits
unfolding optional_money prepare_cap normalize_code
prepare_limits input = and_then (normalize_code input.code) λ code.
    and_then (prepare_cap input.discount_type input.max_discount_amount) λ cap.
      and_then (optional_money input.min_order_amount) λ min_order.
        and_then (optional_integer 1 input.min_eligible_quantity) λ min_quantity.
          and_then (optional_integer 1 input.total_usage_limit) λ total.
            and_then (optional_money input.min_customer_lifetime_spend) λ spend. ok (record {
              code = code;
              cap = cap;
              min_order = min_order;
              min_quantity = min_quantity;
              total = total;
              spend = spend;
            })

unfoldable pub assembled : PromotionInput → ℕ → Period → History → ProductRules → Limits → Prepared
assembled input value period history rules limits = record {
  code = limits.code;
  active = or_value_of input.active true;
  discount_type = input.discount_type;
  discount_value = value;
  max_discount_amount = limits.cap;
  applies_to = or_value_of input.applies_to eligible_items;
  min_order_amount = or_value_of limits.min_order 0;
  min_eligible_quantity = or_value_of limits.min_quantity 1;
  starts_at = period.starts_at;
  ends_at = period.ends_at;
  total_usage_limit = limits.total;
  per_customer_usage_limit = history.per_customer;
  login_requirement = login_of input;
  requires_verified_email = input.requires_verified_email;
  requires_newsletter = input.requires_newsletter;
  first_order_only = input.first_order_only;
  min_customer_order_count = history.least;
  max_customer_order_count = history.most;
  min_customer_lifetime_spend = limits.spend;
  allowed_shipping_methods = dedupe same_shipping input.allowed_shipping_methods;
  allowed_payment_methods = dedupe same_payment input.allowed_payment_methods;
  product_rules = rules;
  customer_targets = targets_of input;
}

unfoldable pub prepare : PromotionInput → Result Prepared
prepare input = and_then (prepare_value input.discount_type input.discount_value) λ value.
    and_then (prepare_period input) λ period. and_then (prepare_history input) λ history.
      and_then (normalize_product_rules input.product_rules) λ rules.
        and_then
          (guard (not (is_guest (login_of input) && needs_account input))
            (validation_failed "guests have no account"))
          λ _.
            and_then (prepare_limits input)
              λ limits. ok (assembled input value period history rules limits)
