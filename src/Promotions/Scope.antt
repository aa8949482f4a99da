-- ===== src/Promotions/Scope.antt =====
-- apps/api/src/promotions.service.ts: which cart lines a promotion is for. `normal` is the trim
-- and the lower case of a text in the locale sr-RS, `within` is `String.prototype.includes`, and
-- `digits` is the text of a number.
use daja_platform.Base.{
  String, Bool, true, false, not, Option, none, some, List, ◌&&◌, ◌||◌, ◌==◌, str_eq, any, all,
  is_empty, if◌then◌else◌,
}
use daja_platform.Base.Int.{ℤ}
use daja_platform.Context.{Uuid}
use daja_platform.Json.{Json, null, bool, number, text, Fields, get_field}
use daja_platform.Promotions.Schema.{
  Operator, equals, includes_text, SpecificationRule, PromotionScope, ProductRules, CartLine,
}

unfoldable pub scope_has_rules : PromotionScope → Bool
scope_has_rules scope =
    not (is_empty scope.product_ids)
    || not (is_empty scope.variant_ids)
    || not (is_empty scope.category_ids)
    || not (is_empty scope.brand_ids)
    || not (is_empty scope.department_ids)
    || not (is_empty scope.specifications)

-- `a ?? b` on values where null counts as absent
abbrev pub or_value : Option Json → Option Json → Option Json
or_value none b = b
or_value (some null) b = b
or_value (some v) b = some v

-- `key ? fields[key] : undefined`; an empty key is absent
abbrev pub field_at : Option String → Fields → Option Json
field_at none fields = none
field_at (some key) fields = if str_eq key "" then none else get_field key fields

-- The value of a line that a rule is about.
unfoldable pub value_for : CartLine → SpecificationRule → Option Json
value_for line rule = or_value (get_field rule.spec_key_id line.specification_values) (
    or_value (get_field rule.spec_key_id line.attributes) (
      or_value (field_at rule.spec_key_slug line.attributes)
        (field_at rule.spec_key_name line.attributes)))

-- One dimension of `matchesScope`: an empty list is none.
abbrev pub allows : List Uuid → Uuid → Bool
allows ids id = is_empty ids || any (λ i. i == id) ids

abbrev pub allows_some : List Uuid → Option Uuid → Bool
allows_some ids none = is_empty ids
allows_some ids (some id) = allows ids id

module _ (normal : String → String) (within : String → String → Bool) (digits : ℤ → String) where
  -- `String(raw)` of a text, a number or a truth value
  unfoldable pub plain_text : Option Json → Option String
  plain_text (some (text s)) = some s
  plain_text (some (number n)) = some (digits n)
  plain_text (some (bool true)) = some "true"
  plain_text (some (bool false)) = some "false"
  plain_text _ = none

  abbrev pub compares : Operator → String → String → Bool
  compares equals actual expected = str_eq actual expected
  compares includes_text actual expected = within expected actual

  unfoldable pub specification_matches : CartLine → SpecificationRule → Bool
  unfolding plain_text value_for
  specification_matches line rule = elim (plain_text (value_for line rule)) [
    | none ↦ false
    | some raw ↦ compares rule.operator (normal raw) (normal rule.value)
  ]

  unfoldable pub matches_scope : CartLine → PromotionScope → Bool
  matches_scope line scope =
      scope_has_rules scope
      && allows scope.product_ids line.product_id
      && allows scope.variant_ids line.variant_id
      && allows_some scope.category_ids line.category_id
      && allows_some scope.brand_ids line.brand_id
      && allows_some scope.department_ids line.department_id
      && all (specification_matches line) scope.specifications

  unfoldable pub is_eligible : CartLine → ProductRules → Bool
  is_eligible line rules =
      (not (scope_has_rules rules.included) || matches_scope line rules.included)
      && not (scope_has_rules rules.excluded && matches_scope line rules.excluded)
