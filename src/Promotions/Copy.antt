-- ===== src/Promotions/Copy.antt =====
-- A promotion without a threshold cannot be copied.
use daja_platform.Base.{
  ◌≡◌, ◌≢◌, refl, ap, ◌∙◌, guard, not, ◌&&◌, String, some, find_row, Result, ok, err, arith, ◌>>=◌,
}
use daja_platform.Base.Keeps.{and_then_returns}
use daja_platform.Context.{Uuid}
use daja_platform.Security.Errors.{AppError, validation_failed}
use daja_platform.Promotions.Schema.{Promotion, Tables}
use daja_platform.Promotions.Consume.{is_live_promotion}
use daja_platform.Promotions.Double.{hundredth}
use daja_platform.Promotions.Input.{PromotionInput, Prepared, hundredths, optional_money}
use daja_platform.Promotions.Prepare.{
  Limits, normalize_code, prepare_cap, prepare_value, prepare_period, prepare_history,
  normalize_product_rules, is_guest, login_of, needs_account, prepare_limits, prepare,
}
use daja_platform.Promotions.Admin.{copy_of, customers_of, create, duplicate}

no_amount : optional_money (some (hundredths 0)) ≡ err (validation_failed "not a positive amount")
unfolding optional_money hundredth
no_amount = refl

limits_refused :
    (input : PromotionInput) (l : Limits)
    → input.min_order_amount ≡ some (hundredths 0)
    → prepare_limits input ≢ ok l
unfolding prepare_limits
limits_refused input l zero h =
    let (code, _, h1) = and_then_returns (normalize_code input.code) _ h in
    let (cap, _, h2) =
      and_then_returns (prepare_cap input.discount_type input.max_discount_amount) _ h1 in
    let (order, order_ok, _) = and_then_returns (optional_money input.min_order_amount) _ h2 in
    let none_read = ap optional_money zero ∙ no_amount in cc

prepare_refused :
    (input : PromotionInput) (v : Prepared)
    → input.min_order_amount ≡ some (hundredths 0)
    → prepare input ≢ ok v
unfolding prepare
prepare_refused input v zero h =
    let (value, _, h1) =
      and_then_returns (prepare_value input.discount_type input.discount_value) _ h in
    let (period, _, h2) = and_then_returns (prepare_period input) _ h1 in
    let (history, _, h3) = and_then_returns (prepare_history input) _ h2 in
    let (rules, _, h4) = and_then_returns (normalize_product_rules input.product_rules) _ h3 in
    let (_, _, h5) =
      and_then_returns
        (guard (not (is_guest (login_of input) && needs_account input))
          (validation_failed "guests have no account"))
        _ h4 in
    let (limits, limits_ok, _) = and_then_returns (prepare_limits input) _ h5 in
    limits_refused input limits zero limits_ok

only_err : {A : Type 0} (r : Result A) → ((a : A) → r ≢ ok a) → (e : AppError) × (r ≡ err e)
only_err (ok a) h = absurd (h a refl)
only_err (err e) h = (e, refl)

-- Copying a promotion whose smallest order amount is 0, which is the amount stored for a
-- promotion without a threshold, never succeeds.
pub duplicate_refused :
    (new_id org id : Uuid) (code : String) (db : Tables) (source copy : Promotion)
    → find_row (is_live_promotion org id) db.promotions ≡ some source
    → source.min_order_amount ≡ 0
    → (duplicate new_id org id code db).0 ≢ ok copy
unfolding duplicate create copy_of ◌>>=◌
duplicate_refused new_id org id code db source copy found zero h =
    let input = copy_of code (customers_of id db) source in
    let (x, e) = only_err (prepare input) (λ v. prepare_refused input v (ground (arith, zero))) in
    ground (arith, found, e, h)
