-- ===== src/Promotions/Input.antt =====
-- apps/api/src/promotions.service.ts: the input and the output of `preparePromotion`, and the checks
-- of single values.
use Prim.Native.Nat.{◌^◌}
use daja_platform.Base.{
  ℕ, ◌*◌, ◌/◌, ◌%◌, String, Bool, not, Option, none, some, List, [], ◌∷◌, ◌&&◌, ◌||◌, ◌==◌, ltb,
  leb, if◌then◌else◌, where_rows, Result, ok, err, and_then,
}
use daja_platform.Context.{Uuid}
use daja_platform.Security.Errors.{validation_failed}
use daja_platform.Promotions.Double.{to_double, math_round, hundredth}
use daja_platform.Promotions.Schema.{
  DiscountType, AppliesTo, LoginRequirement, Shipping, Payment, ProductRules,
}

-- A JavaScript number: `fraction m e` is m / 2 ^ e, and every finite one from 0 on is such.
pub data JsNumber : Type 0 where
  fraction : ℕ → ℕ → JsNumber
  negative not_finite : JsNumber

-- `n / 100`
abbrev pub hundredths : ℕ → JsNumber
hundredths n = fraction (hundredth n) 120

-- The text of a date.
pub data DateText : Type 0 where
  at_time : ℕ → DateText
  unreadable : DateText

pub record Targets : Type 0 where
  pub included : List Uuid
  pub excluded : List Uuid

-- `PromotionInput`; an absent value and null are both `none`.
pub record PromotionInput : Type 0 where
  pub code : String
  pub active : Option Bool
  pub discount_type : DiscountType
  pub discount_value : JsNumber
  pub max_discount_amount : Option JsNumber
  pub applies_to : Option AppliesTo
  pub min_order_amount : Option JsNumber
  pub min_eligible_quantity : Option JsNumber
  pub starts_at : Option DateText
  pub ends_at : Option DateText
  pub total_usage_limit : Option JsNumber
  pub per_customer_usage_limit : Option JsNumber
  pub login_requirement : Option LoginRequirement
  pub requires_verified_email : Bool
  pub requires_newsletter : Bool
  pub first_order_only : Bool
  pub min_customer_order_count : Option JsNumber
  pub max_customer_order_count : Option JsNumber
  pub min_customer_lifetime_spend : Option JsNumber
  pub allowed_shipping_methods : List Shipping
  pub allowed_payment_methods : List Payment
  pub product_rules : ProductRules
  pub customer_targets : Targets

-- What `preparePromotion` returns.
pub record Prepared : Type 0 where
  pub code : String
  pub active : Bool
  pub discount_type : DiscountType
  pub discount_value : ℕ
  pub max_discount_amount : Option ℕ
  pub applies_to : AppliesTo
  pub min_order_amount : ℕ
  pub min_eligible_quantity : ℕ
  pub starts_at : Option ℕ
  pub ends_at : Option ℕ
  pub total_usage_limit : Option ℕ
  pub per_customer_usage_limit : Option ℕ
  pub login_requirement : LoginRequirement
  pub requires_verified_email : Bool
  pub requires_newsletter : Bool
  pub first_order_only : Bool
  pub min_customer_order_count : Option ℕ
  pub max_customer_order_count : Option ℕ
  pub min_customer_lifetime_spend : Option ℕ
  pub allowed_shipping_methods : List Shipping
  pub allowed_payment_methods : List Payment
  pub product_rules : ProductRules
  pub customer_targets : Targets

unfoldable pub money_to_minor : JsNumber → Result ℕ
unfolding to_double math_round
money_to_minor (fraction m e) =
    if m == 0 || ltb (10000000 * 2 ^ e) m
    then err (validation_failed "not a positive amount")
    else ok (math_round (to_double (100 * m)) e)
money_to_minor _ = err (validation_failed "not a positive amount")

-- `Number.isInteger(n) && n >= least && n <= most`
abbrev pub integer_in_range : ℕ → ℕ → JsNumber → Result ℕ
integer_in_range least most (fraction m e) =
    if m % 2 ^ e == 0 && leb least (m / 2 ^ e) && leb (m / 2 ^ e) most
    then ok (m / 2 ^ e)
    else err (validation_failed "not valid")
integer_in_range least most _ = err (validation_failed "not valid")

-- A check of a value that may be absent.
abbrev pub optional : {A B : Type 0} → (A → Result B) → Option A → Result (Option B)
optional f none = ok none
optional f (some a) = and_then (f a) (λ b. ok (some b))

-- `optionalMoneyToMinor` and `optionalInteger`
unfoldable pub optional_money : Option JsNumber → Result (Option ℕ)
unfolding money_to_minor
optional_money = optional money_to_minor

abbrev pub optional_integer : ℕ → Option JsNumber → Result (Option ℕ)
optional_integer least = optional (integer_in_range least 1000000)

abbrev pub read_date : DateText → Result ℕ
read_date (at_time t) = ok t
read_date unreadable = err (validation_failed "not a date")

abbrev pub or_value_of : {A : Type 0} → Option A → A → A
or_value_of none d = d
or_value_of (some a) d = a

-- `[...new Set(values)]`
abbrev pub dedupe : {A : Type 0} → (A → A → Bool) → List A → List A
dedupe same [] = []
dedupe same (x ∷ xs) = x ∷ where_rows (λ y. not (same x y)) (dedupe same xs)

abbrev pub unique_ids : List Uuid → List Uuid
unique_ids = dedupe (λ a b. a == b)
