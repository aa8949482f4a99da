-- ===== src/Promotions/Schema.antt =====
-- The rows and values of apps/api/src/promotions.service.ts. Money is in minor units, as the
-- columns hold it, and a time is a number of milliseconds. The JSON columns hold what
-- `preparePromotion` wrote there. The names that only the admin page shows are left out.
use daja_platform.Base.{ℕ, ◌+◌, ◌*◌, String, Bool, Option, List, [], ◌∷◌}
use daja_platform.Context.{Uuid}
use daja_platform.Json.{Fields}

pub data DiscountType : Type 0 where
  percentage fixed free_shipping : DiscountType

pub data AppliesTo : Type 0 where
  eligible_items order : AppliesTo

pub data LoginRequirement : Type 0 where
  anyone authenticated guest : LoginRequirement

pub data Shipping : Type 0 where
  courier shop_pickup : Shipping

pub data Payment : Type 0 where
  cod pickup_payment : Payment

pub data Operator : Type 0 where
  equals includes_text : Operator

pub record SpecificationRule : Type 0 where
  pub spec_key_id : String
  pub spec_key_slug : Option String
  pub spec_key_name : Option String
  pub value : String
  pub operator : Operator

-- `PromotionScope`
pub record PromotionScope : Type 0 where
  pub product_ids : List Uuid
  pub variant_ids : List Uuid
  pub category_ids : List Uuid
  pub brand_ids : List Uuid
  pub department_ids : List Uuid
  pub specifications : List SpecificationRule

pub record ProductRules : Type 0 where
  pub included : PromotionScope
  pub excluded : PromotionScope

-- `PromotionRow`
pub record Promotion : Type 0 where
  pub id : Uuid
  pub organization_id : Uuid
  pub code : String
  pub active : Bool
  pub deleted : Bool
  pub discount_type : DiscountType
  pub discount_value : ℕ
  pub max_discount_amount : Option ℕ
  pub applies_to : AppliesTo
  pub min_order_amount : ℕ
  pub min_eligible_quantity : ℕ
  pub starts_at : Option ℕ
  pub ends_at : Option ℕ
  pub total_usage_limit : Option ℕ
  pub uses_count : ℕ
  pub per_customer_usage_limit : Option ℕ
  pub login_requirement : LoginRequirement
  pub requires_verified_email : Bool
  pub requires_newsletter : Bool
  pub first_order_only : Bool
  pub min_customer_order_count : Option ℕ
  pub max_customer_order_count : Option ℕ
  pub min_customer_lifetime_spend : Option ℕ
  pub allowed_shipping_methods : List Shipping
  pub allowed_payment_methods : List Payment
  pub product_rules : ProductRules

-- `CanonicalCartLine`
pub record CartLine : Type 0 where
  pub product_id : Uuid
  pub variant_id : Uuid
  pub category_id : Option Uuid
  pub brand_id : Option Uuid
  pub department_id : Option Uuid
  pub price : ℕ
  pub quantity : ℕ
  pub attributes : Fields
  pub specification_values : Fields

-- `PromotionResolution`, less the amounts that only repeat the minor units divided by 100
pub record PromotionResolution : Type 0 where
  pub promotion_id : Option Uuid
  pub code : Option String
  pub discount_amount : ℕ
  pub free_shipping : Bool
  pub subtotal_amount : Option ℕ
  pub eligible_subtotal_amount : Option ℕ

-- `CustomerPrincipal`
pub record Principal : Type 0 where
  pub organization_id : Uuid
  pub customer_id : Uuid

pub data TargetType : Type 0 where
  include_customer exclude_customer : TargetType

pub record CustomerTarget : Type 0 where
  pub promotion_id : Uuid
  pub customer_id : Uuid
  pub target_type : TargetType

pub record Customer : Type 0 where
  pub id : Uuid
  pub organization_id : Uuid
  pub normalized_email : String
  pub email_verified : Bool
  pub deleted : Bool

pub record Subscriber : Type 0 where
  pub organization_id : Uuid
  pub normalized_email : String
  pub active : Bool

-- `lowered_email` is `lower(customer_email)`.
pub record Order : Type 0 where
  pub organization_id : Uuid
  pub customer_id : Option Uuid
  pub lowered_email : String
  pub total_amount : ℕ
  pub deleted : Bool

pub record Redemption : Type 0 where
  pub organization_id : Uuid
  pub promotion_id : Uuid
  pub order_id : Uuid
  pub customer_id : Option Uuid
  pub code : String
  pub discount_amount : ℕ
  pub free_shipping : Bool

pub record Tables : Type 0 where
  pub promotions : List Promotion
  pub targets : List CustomerTarget
  pub customers : List Customer
  pub subscribers : List Subscriber
  pub orders : List Order
  pub redemptions : List Redemption

-- `lines.reduce((sum, item) => sum + item.priceMinor * item.quantity, 0)`
unfoldable pub total_of : List CartLine → ℕ
total_of [] = 0
total_of (line ∷ lines) = line.price * line.quantity + total_of lines

unfoldable pub quantity_of_all : List CartLine → ℕ
quantity_of_all [] = 0
quantity_of_all (line ∷ lines) = line.quantity + quantity_of_all lines
