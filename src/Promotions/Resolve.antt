-- ===== src/Promotions/Resolve.antt =====
-- apps/api/src/promotions.service.ts: `resolve`. The code is given trimmed and in capitals, and
-- `lines` is the priced cart, or what prices it.
use daja_platform.Base.{
  ℕ, String, Bool, true, false, not, Option, none, some, List, ◌&&◌, ◌||◌, ◌==◌, ltb, leb, min,
  str_eq, if◌then◌else◌, where_rows, find_row, is_empty, Result, ok, err, and_then,
}
use daja_platform.Base.Int.{ℤ}
use daja_platform.Context.{Uuid}
use daja_platform.Security.Errors.{validation_failed}
use daja_platform.Promotions.Schema.{
  DiscountType, percentage, fixed, free_shipping, AppliesTo, eligible_items, order, Shipping,
  Payment, Promotion, CartLine, PromotionResolution, Principal, Tables, total_of, quantity_of_all,
}
use daja_platform.Promotions.Double.{percent}
use daja_platform.Promotions.Scope.{scope_has_rules, is_eligible}
use daja_platform.Promotions.Audience.{assert_audience, assert_checkout_rules}

pub record Cart : Type 0 where
  pub organization_id : Uuid
  pub customer : Option Principal
  pub shipping_method : Option Shipping
  pub payment_method : Option Payment

-- `emptyResolution`
abbrev pub empty_resolution : PromotionResolution
empty_resolution = record {
  promotion_id = none;
  code = none;
  discount_amount = 0;
  free_shipping = false;
  subtotal_amount = none;
  eligible_subtotal_amount = none;
}

abbrev pub has_code : Uuid → String → Promotion → Bool
has_code org code p = p.organization_id == org && str_eq p.code code && not p.deleted

-- `promotion.starts_at && … > now`
abbrev pub not_started : Option ℕ → ℕ → Bool
not_started none now = false
not_started (some t) now = ltb now t

abbrev pub has_ended : Option ℕ → ℕ → Bool
has_ended none now = false
has_ended (some t) now = leb t now

-- `limit !== null && uses >= limit`
abbrev pub used_up : Option ℕ → ℕ → Bool
used_up none uses = false
used_up (some limit) uses = leb limit uses

unfoldable pub check_promotion : Promotion → ℕ → Result (Unit {0})
check_promotion p now =
    if not p.active
    then err (validation_failed "not active")
    else if not_started p.starts_at now
    then err (validation_failed "not started")
    else if has_ended p.ends_at now
    then err (validation_failed "ended")
    else if used_up p.total_usage_limit p.uses_count
    then err (validation_failed "used up")
    else ok tt

abbrev pub is_free_shipping : DiscountType → Bool
is_free_shipping free_shipping = true
is_free_shipping _ = false

abbrev pub base_of : AppliesTo → ℕ → ℕ → ℕ
base_of order subtotal eligible = subtotal
base_of eligible_items subtotal eligible = eligible

abbrev pub capped : Option ℕ → ℕ → ℕ
capped none amount = amount
capped (some most) amount = min amount most

unfoldable pub discount_before_cap : DiscountType → ℕ → ℕ → ℕ
discount_before_cap percentage value base = percent base value
discount_before_cap fixed value base = min base value
discount_before_cap free_shipping value base = 0

unfoldable pub discount_of : Promotion → ℕ → ℕ → ℕ
discount_of p subtotal eligible =
    capped p.max_discount_amount (
      discount_before_cap p.discount_type p.discount_value (base_of p.applies_to subtotal eligible))

module _ (normal : String → String) (within : String → String → Bool) (digits : ℤ → String) where
  abbrev pub eligible_lines : Promotion → List CartLine → List CartLine
  eligible_lines p = where_rows (λ line. is_eligible normal within digits line p.product_rules)

  abbrev pub has_product_scope : Promotion → Bool
  has_product_scope p =
      scope_has_rules p.product_rules.included || scope_has_rules p.product_rules.excluded

  -- `qualifyingSubtotalMinor`
  abbrev pub qualifying : Promotion → List CartLine → ℕ
  qualifying p lines =
      if has_product_scope p then total_of (eligible_lines p lines) else total_of lines

  -- From the priced cart to the answer.
  unfoldable pub price : Promotion → List CartLine → Result PromotionResolution
  price p lines =
      if is_empty (eligible_lines p lines)
        || ltb (quantity_of_all (eligible_lines p lines)) p.min_eligible_quantity
      then err (validation_failed "cart does not qualify")
      else if ltb (qualifying p lines) p.min_order_amount
      then err (validation_failed "order too small")
      else ok (record {
        promotion_id = some p.id;
        code = some p.code;
        discount_amount = discount_of p (total_of lines) (total_of (eligible_lines p lines));
        free_shipping = is_free_shipping p.discount_type;
        subtotal_amount = some (total_of lines);
        eligible_subtotal_amount = some (total_of (eligible_lines p lines));
      })

  unfoldable pub resolve_found :
      Promotion → Cart → ℕ → (Tables → Result (List CartLine)) → Tables → Result PromotionResolution
  unfolding check_promotion price
  resolve_found p cart now lines db = and_then (check_promotion p now) (λ _.
      and_then (assert_audience p cart.customer db) (λ _.
        and_then (assert_checkout_rules p cart.shipping_method cart.payment_method)
          (λ _. and_then (lines db) (price p))))

  unfoldable pub resolve :
      Cart → String → ℕ → (Tables → Result (List CartLine)) → Tables → Result PromotionResolution
  resolve cart code now lines db =
      if str_eq code ""
      then ok empty_resolution
      else elim (find_row (has_code cart.organization_id code) db.promotions) [
        | none ↦ err (validation_failed "no such code")
        | some p ↦ resolve_found p cart now lines db
      ]
