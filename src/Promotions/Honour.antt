-- ===== src/Promotions/Honour.antt =====
-- What a code that is accepted has passed, and how much it takes off.
use daja_platform.Base.{
  ℕ, ◌≡◌, ◌≤◌, ◌<◌, is_empty, String, Bool, true, false, Option, none, some, List, [], ◌∷◌, All,
  str_eq, where_rows, find_row, Result, ok, arith, inl, inr, Bool-cases, Option-cases, ◌⊎◌,
}
use daja_platform.Base.Keeps.{and_then_returns}
use daja_platform.Base.Rows.{find_row-All, find_row-passes}
use daja_platform.Base.Int.{ℤ}
use daja_platform.Promotions.Scope.{is_eligible}
use daja_platform.Promotions.Schema.{
  DiscountType, percentage, fixed, free_shipping, Promotion, CartLine, PromotionResolution, Tables,
  total_of, quantity_of_all,
}
use Prim.Native.Nat.{◌^◌}
use daja_platform.Promotions.Double.Bounds.{percent-le}
use daja_platform.Promotions.Entitled.{
  IsEntitled, assert_audience-IsEntitled, shipping_fits, payment_fits, checkout_entitled,
}
use daja_platform.Promotions.Audience.{assert_audience, assert_checkout_rules}
use daja_platform.Promotions.Resolve.{
  Cart, empty_resolution, has_code, not_started, has_ended, used_up, check_promotion, base_of,
  discount_of, discount_before_cap, is_free_shipping, capped, eligible_lines, qualifying, price,
  resolve_found, resolve,
}

abbrev pub percentage_of : DiscountType → ℕ → ℕ
percentage_of percentage value = value
percentage_of _ value = 0

module _ (normal : String → String) (within : String → String → Bool) (digits : ℤ → String) where
  module _ (cart : Cart) (code : String) (now : ℕ) (lines : Tables → Result (List CartLine))
      (db : Tables) (r : PromotionResolution) where
    pub record IsHonoured : Type 0 where
      pub promotion : Promotion
      pub cart_lines : List CartLine
      pub found : find_row (has_code cart.organization_id code) db.promotions ≡ some promotion
      pub organization : promotion.organization_id ≡ cart.organization_id
      pub not_deleted : promotion.deleted ≡ false
      pub active : promotion.active ≡ true
      pub started : not_started promotion.starts_at now ≡ false
      pub ongoing : has_ended promotion.ends_at now ≡ false
      pub unspent : used_up promotion.total_usage_limit promotion.uses_count ≡ false
      pub entitled : IsEntitled promotion cart.customer db
      pub shipping : shipping_fits promotion.allowed_shipping_methods cart.shipping_method ≡ true
      pub payment : payment_fits promotion.allowed_payment_methods cart.payment_method ≡ true
      pub priced : lines db ≡ ok cart_lines
      pub enough :
          promotion.min_eligible_quantity
          ≤ quantity_of_all (eligible_lines normal within digits promotion cart_lines)
      pub threshold :
          promotion.min_order_amount ≤ qualifying normal within digits promotion cart_lines
      pub some_line : is_empty (eligible_lines normal within digits promotion cart_lines) ≡ false
      pub free : r.free_shipping ≡ is_free_shipping promotion.discount_type
      pub identity : r.promotion_id ≡ some promotion.id
      pub subtotal : r.subtotal_amount ≡ some (total_of cart_lines)
      pub discount :
          r.discount_amount
          ≡ discount_of promotion
              (total_of cart_lines)
              (total_of (eligible_lines normal within digits promotion cart_lines))

    check_promotion_returns :
        (p : Promotion)
        → check_promotion p now ≡ ok tt
        → (p.active ≡ true)
          × (not_started p.starts_at now ≡ false)
          × (has_ended p.ends_at now ≡ false)
          × (used_up p.total_usage_limit p.uses_count ≡ false)
    unfolding check_promotion
    check_promotion_returns p h = ground (arith, h)

    price_returns :
        (p : Promotion) (ls : List CartLine)
        → price normal within digits p ls ≡ ok r
        → (is_empty (eligible_lines normal within digits p ls) ≡ false)
          × (p.min_eligible_quantity ≤ quantity_of_all (eligible_lines normal within digits p ls))
          × (p.min_order_amount ≤ qualifying normal within digits p ls)
          × (r.promotion_id ≡ some p.id)
          × (r.free_shipping ≡ is_free_shipping p.discount_type)
          × (r.subtotal_amount ≡ some (total_of ls))
          × (r.discount_amount
              ≡ discount_of p (total_of ls) (total_of (eligible_lines normal within digits p ls)))
    unfolding price
    price_returns p ls h = ground (arith, h)

    found_honoured :
        (p : Promotion)
        → find_row (has_code cart.organization_id code) db.promotions ≡ some p
        → resolve_found normal within digits p cart now lines db ≡ ok r
        → IsHonoured
    unfolding resolve_found
    found_honoured p found h =
        let (_, checked, rest) = and_then_returns (check_promotion p now) _ h in
        let (_, allowed, rest2) = and_then_returns (assert_audience p cart.customer db) _ rest in
        let (_, ruled, rest3) =
          and_then_returns (assert_checkout_rules p cart.shipping_method cart.payment_method) _
            rest2 in
        let passes = find_row-passes (has_code cart.organization_id code) db.promotions p found in
        let (ls, priced, last) = and_then_returns (lines db) _ rest3 in
        let (active, started, ongoing, unspent) = check_promotion_returns p checked in
        let (some_line, enough, threshold, identity, free, subtotal, discount) =
          price_returns p ls last in
        let (shipping, payment) =
          checkout_entitled p cart.shipping_method cart.payment_method ruled in
        record {
          promotion = p;
          cart_lines = ls;
          found = found;
          organization = ground (arith, passes);
          not_deleted = ground (arith, passes);
          active = active;
          started = started;
          ongoing = ongoing;
          unspent = unspent;
          entitled = assert_audience-IsEntitled p cart.customer db allowed;
          shipping = shipping;
          payment = payment;
          priced = priced;
          some_line = some_line;
          enough = enough;
          threshold = threshold;
          free = free;
          identity = identity;
          subtotal = subtotal;
          discount = discount;
        }

    -- A code that resolves is either empty, and then nothing is taken off, or belongs to a promotion
    -- of the organization that is not deleted, is active, has started, has not ended and is not used
    -- up. The customer is logged in or not as it asks, is named by one of its targets if it has any
    -- and by none of those it excludes, and has an account whose state and orders it asks for; the
    -- methods of shipping and payment are allowed, some line of the cart is eligible, and the
    -- quantity and the threshold are reached. The answer names the promotion, whether shipping is
    -- free, the cart's total and the discount on it.
    pub resolve-IsHonoured :
        resolve normal within digits cart code now lines db ≡ ok r
        → ((str_eq code "" ≡ true) × (r ≡ empty_resolution)) ⊎ IsHonoured
    unfolding resolve
    resolve-IsHonoured h = elim (Bool-cases (str_eq code "")) [
      | inl e ↦ inl (e, ground (arith, h, e))
      | inr e ↦ elim (Option-cases (find_row (has_code cart.organization_id code) db.promotions)) [
        | inl missing ↦ absurd (ground (arith, h, e, missing))
        | inr (p, found) ↦ inr (found_honoured p found (ground (arith, h, e, found)))
      ]
    ]

  total_of-where :
      (keep : CartLine → Bool) (lines : List CartLine)
      → total_of (where_rows keep lines) ≤ total_of lines
  unfolding total_of
  total_of-where keep [] = ground arith
  total_of-where keep (line ∷ lines) = ground (arith, total_of-where keep lines)

  before_cap-le :
      (t : DiscountType) (value base : ℕ)
      → percentage_of t value ≤ 100
      → base < 2 ^ 53
      → discount_before_cap t value base ≤ base
  unfolding discount_before_cap
  before_cap-le percentage value base valid small = percent-le base value small valid
  before_cap-le fixed value base valid small = omega arith
  before_cap-le free_shipping value base valid small = omega arith

  capped-le : (most : Option ℕ) (amount : ℕ) → capped most amount ≤ amount
  capped-le none amount = omega arith
  capped-le (some most) amount = omega arith

  discount_of-le :
      (p : Promotion) (subtotal eligible : ℕ)
      → percentage_of p.discount_type p.discount_value ≤ 100
      → eligible ≤ subtotal
      → subtotal < 2 ^ 53
      → discount_of p subtotal eligible ≤ subtotal
  unfolding discount_of
  discount_of-le p subtotal eligible valid le small =
      let most : base_of p.applies_to subtotal eligible ≤ subtotal = ground (arith, le) in
      omega (
        arith,
        capped-le p.max_discount_amount (
            discount_before_cap p.discount_type p.discount_value
              (base_of p.applies_to subtotal eligible)),
        before_cap-le p.discount_type p.discount_value (base_of p.applies_to subtotal eligible)
            valid (omega (arith, most, small)),
        most,
      )

  honoured-le :
      (cart : Cart) (code : String) (now : ℕ) (lines : Tables → Result (List CartLine))
      (db : Tables) (r : PromotionResolution)
      → All (λ p. percentage_of p.discount_type p.discount_value ≤ 100) db.promotions
      → IsHonoured cart code now lines db r
      → (total : ℕ) → r.subtotal_amount ≡ some total
      → total < 2 ^ 53
      → r.discount_amount ≤ total
  honoured-le cart code now lines db r valid k total e small =
      let rate =
        find_row-All (λ p. percentage_of p.discount_type p.discount_value ≤ 100)
          (has_code cart.organization_id code) db.promotions k.promotion valid k.found in
      let le =
        discount_of-le k.promotion (total_of k.cart_lines)
          (total_of (eligible_lines normal within digits k.promotion k.cart_lines)) rate
          (total_of-where (λ line. is_eligible normal within digits line k.promotion.product_rules)
            k.cart_lines)
          (ground (arith, small, e, k.subtotal)) in
      ground (arith, le, e, k.subtotal, k.discount)

  -- If no promotion has a percentage above 100, then the discount of a code that resolves, rounded as
  -- JavaScript rounds it, is at most the cart's total, if that is below 2 ^ 53.
  pub resolve-le :
      (cart : Cart) (code : String) (now : ℕ) (lines : Tables → Result (List CartLine))
      (db : Tables) (r : PromotionResolution)
      → All (λ p. percentage_of p.discount_type p.discount_value ≤ 100) db.promotions
      → resolve normal within digits cart code now lines db ≡ ok r
      → (total : ℕ) → r.subtotal_amount ≡ some total
      → total < 2 ^ 53
      → r.discount_amount ≤ total
  resolve-le cart code now lines db r valid h total e small =
      elim (resolve-IsHonoured cart code now lines db r h) [
        | inl (_, empty) ↦ ground (arith, empty)
        | inr k ↦ honoured-le cart code now lines db r valid k total e small
      ]
