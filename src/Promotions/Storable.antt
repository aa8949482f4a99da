-- ===== src/Promotions/Storable.antt =====
-- What `preparePromotion` lets through, against the constraints of the table.
use daja_platform.Base.{
  ℕ, ◌≡◌, refl, String, Bool, true, false, not, Option, none, some, ◌&&◌, ◌==◌, ltb, leb, ok, arith,
  guard, ◌*◌, ◌≤◌, ◌||◌, inl, inr, ◌⊎◌, Bool-cases, err, if◌then◌else◌,
}
use Prim.Native.Nat.{◌^◌}
use mathlib.Core.Path.{subst}
use daja_platform.Promotions.Double.{to_double, math_round}
use daja_platform.Promotions.Double.Bounds.{
  to_double-le, to_double-half, math_round-le, math_round-positive,
}
use daja_platform.Base.Keeps.{and_then_returns}
use daja_platform.Security.Errors.{AppError, validation_failed}
use daja_platform.Promotions.Schema.{ProductRules, DiscountType, percentage, fixed, free_shipping}
use daja_platform.Promotions.Input.{
  JsNumber, fraction, negative, not_finite, money_to_minor, PromotionInput, Prepared, optional,
  optional_integer, read_date, optional_money,
}
use daja_platform.Promotions.Prepare.{
  both_in_order, both_at_most, codes_of, is_code, Period, History, Limits, prepare_period,
  prepare_history, prepare_limits, assembled, is_guest, login_of, needs_account, prepare_value,
  prepare_cap, normalize_code, normalize_product_rules, prepare,
}

-- Whether the amount is below a hundredth.
abbrev pub below_hundredth : JsNumber → Bool
below_hundredth (fraction m e) = ltb (100 * m) (2 ^ e)
below_hundredth _ = true

-- What each type of discount may have for its value when it was given as a number.
abbrev pub value_allowed : DiscountType → JsNumber → ℕ → Bool
value_allowed percentage given value = ltb 0 value && leb value 100
value_allowed fixed given value = leb value 1000000000 && (ltb 0 value || below_hundredth given)
value_allowed free_shipping given value = value == 0

abbrev pub at_least_one : Option ℕ → Bool
at_least_one none = true
at_least_one (some n) = ltb 0 n

-- The CHECK constraints of the table promotions, as far as the input ensures them.
pub record IsStorable (input : PromotionInput) (v : Prepared) : Type 0 where
  pub value : value_allowed v.discount_type input.discount_value v.discount_value ≡ true
  pub code : is_code (codes_of v.code) ≡ true
  pub quantity : ltb 0 v.min_eligible_quantity ≡ true
  pub total_limit : at_least_one v.total_usage_limit ≡ true
  pub share_limit : at_least_one v.per_customer_usage_limit ≡ true
  pub order_counts : both_at_most v.min_customer_order_count v.max_customer_order_count ≡ true
  pub period : both_in_order v.starts_at v.ends_at ≡ true

unless_returns :
    {A : Type 0} (c : Bool) (e : AppError) (a b : A)
    → (if c then err e else ok a) ≡ ok b
    → (c ≡ false) × (a ≡ b)
unless_returns true e a b h = cc
unless_returns false e a b h = (refl, ground (arith, h))

within : (z : Bool) (most m : ℕ) → (z || ltb most m) ≡ false → m ≤ most
within z most m h = ground (arith, h)

not_below : (a b : ℕ) → ltb a b ≡ false → b ≤ a
not_below a b h = ground (arith, h)

bounded_value :
    (most r value : ℕ) (small : Bool)
    → r ≡ value
    → r ≤ most
    → (small ≡ true) ⊎ (1 ≤ r)
    → (leb value most && (ltb 0 value || small)) ≡ true
bounded_value most r value small e le (inl t) = ground (arith, e, le, t)
bounded_value most r value small e le (inr p) = ground (arith, e, le, p)

-- The amount is bounded before it is rounded.
minor_bounds :
    (m e value : ℕ)
    → money_to_minor (fraction m e) ≡ ok value
    → (leb value 1000000000 && (ltb 0 value || ltb (100 * m) (2 ^ e))) ≡ true
unfolding money_to_minor
minor_bounds m e value h =
    let (passed, same) =
      unless_returns (m == 0 || ltb (10000000 * 2 ^ e) m) _ (math_round (to_double (100 * m)) e)
        value h in
    let most = within (m == 0) (10000000 * 2 ^ e) m passed in
    let scaled : 100 * m ≤ 1000000000 * 2 ^ e = omega (arith, most) in
    let rounded = to_double-le 1000000000 e (100 * m) (omega arith) scaled in
    let bounded = math_round-le 1000000000 (to_double (100 * m)) e rounded in
    bounded_value 1000000000 (math_round (to_double (100 * m)) e) value (ltb (100 * m) (2 ^ e)) same
      bounded
      (elim (Bool-cases (ltb (100 * m) (2 ^ e))) [
        | inl t ↦ inl t
        | inr n ↦
            let half = to_double-half (100 * m) in
            let least = not_below (100 * m) (2 ^ e) n in
            inr (math_round-positive (to_double (100 * m)) e (omega (arith, least, half)))
      ])

value_storable :
    (t : DiscountType) (n : JsNumber) (value : ℕ)
    → prepare_value t n ≡ ok value
    → value_allowed t n value ≡ true
unfolding prepare_value money_to_minor
value_storable percentage n value h = ground (arith, h)
value_storable fixed (fraction m e) value h = minor_bounds m e value h
value_storable fixed negative value h = cc
value_storable fixed not_finite value h = cc
value_storable free_shipping n value h = ground (arith, h)

code_storable :
    (text code : String) → normalize_code text ≡ ok code → is_code (codes_of code) ≡ true
unfolding normalize_code
code_storable text code h = ground (arith, h)

guard_passed : (c : Bool) (e : AppError) → guard c e ≡ ok tt → c ≡ true
guard_passed true e h = refl
guard_passed false e h = cc

count_positive :
    (o : Option JsNumber) (r : Option ℕ) → optional_integer 1 o ≡ ok r → at_least_one r ≡ true
count_positive none r h = ground (arith, h)
count_positive (some n) none h = refl
count_positive (some n) (some m) h = ground (arith, h)

period_storable :
    (input : PromotionInput) (p : Period)
    → prepare_period input ≡ ok p
    → both_in_order p.starts_at p.ends_at ≡ true
unfolding prepare_period
period_storable input p h =
    let (starts, _, h1) = and_then_returns (optional read_date input.starts_at) _ h in
    let (ends, _, h2) = and_then_returns (optional read_date input.ends_at) _ h1 in
    ground (arith, h2)

history_storable :
    (input : PromotionInput) (r : History)
    → prepare_history input ≡ ok r
    → (both_at_most r.least r.most ≡ true) × (at_least_one r.per_customer ≡ true)
unfolding prepare_history
history_storable input r h =
    let (least, _, h1) = and_then_returns (optional_integer 0 input.min_customer_order_count) _ h in
    let (most, _, h2) = and_then_returns (optional_integer 0 input.max_customer_order_count) _ h1 in
    let (_, in_order, h3) = and_then_returns (guard (both_at_most least most) _) _ h2 in
    let (share, share_ok, h4) =
      and_then_returns (optional_integer 1 input.per_customer_usage_limit) _ h3 in
    (
      ground (arith, h4, guard_passed _ _ in_order),
      ground (arith, h4, count_positive input.per_customer_usage_limit share share_ok),
    )

limits_storable :
    (input : PromotionInput) (l : Limits)
    → prepare_limits input ≡ ok l
    → (is_code (codes_of l.code) ≡ true)
      × (at_least_one l.min_quantity ≡ true)
      × (at_least_one l.total ≡ true)
unfolding prepare_limits
limits_storable input l h =
    let (code, code_ok, h1) = and_then_returns (normalize_code input.code) _ h in
    let (cap, _, h2) =
      and_then_returns (prepare_cap input.discount_type input.max_discount_amount) _ h1 in
    let (order, _, h3) = and_then_returns (optional_money input.min_order_amount) _ h2 in
    let (quantity, quantity_ok, h4) =
      and_then_returns (optional_integer 1 input.min_eligible_quantity) _ h3 in
    let (total, total_ok, h5) =
      and_then_returns (optional_integer 1 input.total_usage_limit) _ h4 in
    let (spend, _, last) =
      and_then_returns (optional_money input.min_customer_lifetime_spend) _ h5 in
    (
      ground (arith, last, code_storable input.code code code_ok),
      ground (arith, last, count_positive input.min_eligible_quantity quantity quantity_ok),
      ground (arith, last, count_positive input.total_usage_limit total total_ok),
    )

assembled-IsStorable :
    (input : PromotionInput) (value : ℕ) (period : Period) (history : History)
    (rules : ProductRules) (limits : Limits)
    → prepare_value input.discount_type input.discount_value ≡ ok value
    → prepare_period input ≡ ok period
    → prepare_history input ≡ ok history
    → prepare_limits input ≡ ok limits
    → IsStorable input (assembled input value period history rules limits)
unfolding assembled
assembled-IsStorable input value period history rules limits v p h l =
    let (counts_ok, share_ok) = history_storable input history h in
    let (code_ok, quantity_ok, total_ok) = limits_storable input limits l in
    record {
      value = value_storable input.discount_type input.discount_value value v;
      code = code_ok;
      quantity = ground (arith, quantity_ok);
      total_limit = total_ok;
      share_limit = share_ok;
      order_counts = counts_ok;
      period = period_storable input period p;
    }

-- Whatever promotion is prepared without an error satisfies the table's constraints, but for fixed
-- amounts given below a hundredth: a percentage is from 1 to 100, a fixed amount is at most
-- 1000000000 and, if it was given as a hundredth at least, positive, free shipping has the value 0,
-- the code has its form, quantities and limits are positive, and the period and the order counts are
-- in order.
pub prepare-IsStorable :
    (input : PromotionInput) (v : Prepared) → prepare input ≡ ok v → IsStorable input v
unfolding prepare
prepare-IsStorable input v h =
    let (value, value_ok, h1) =
      and_then_returns (prepare_value input.discount_type input.discount_value) _ h in
    let (period, period_ok, h2) = and_then_returns (prepare_period input) _ h1 in
    let (history, history_ok, h3) = and_then_returns (prepare_history input) _ h2 in
    let (rules, _, h4) = and_then_returns (normalize_product_rules input.product_rules) _ h3 in
    let (_, _, h5) =
      and_then_returns
        (guard (not (is_guest (login_of input) && needs_account input))
          (validation_failed "guests have no account"))
        _ h4 in
    let (limits, limits_ok, last) = and_then_returns (prepare_limits input) _ h5 in
    let same : assembled input value period history rules limits ≡ v = ground (arith, last) in
    subst (IsStorable input) same (
      assembled-IsStorable input value period history rules limits value_ok period_ok history_ok
        limits_ok)
