-- ===== src/Access/Grants.antt =====
-- apps/api/src/access-policy.ts: the tests on a caller's grants.
use daja_platform.Base.{
  String, Bool, true, false, not, Option, none, some, List, [], ◌∷◌, ◌&&◌, ◌||◌, ◌==◌,
  if◌then◌else◌, str_eq, any, Result, ok, err, guard,
}
use daja_platform.Context.{Uuid, Grant, Scope, RequestContext}
use daja_platform.Security.Errors.{permission_denied}

abbrev pub is_everywhere : Scope → Bool
is_everywhere Scope.all_locations = true
is_everywhere Scope.location = false

-- `locationId !== undefined && grant.locationId === locationId`
abbrev pub is_at : Option Uuid → Grant → Bool
is_at none grant = false
is_at (some loc) grant = elim grant.location_id [ none ↦ false | some l ↦ l == loc ]

abbrev pub includes : String → List String → Bool
includes permission = any (λ p. str_eq p permission)

abbrev pub grants : String → Option Uuid → Grant → Bool
grants permission loc grant =
    str_eq grant.permission permission && (is_everywhere grant.scope || is_at loc grant)

abbrev pub has_scoped : RequestContext → Option Uuid → String → Bool
has_scoped ctx loc permission =
    includes permission ctx.permissions && any (grants permission loc) ctx.scoped_grants

abbrev pub first_of_list : List String → String
first_of_list [] = ""
first_of_list (p ∷ ps) = p

unfoldable pub require_scoped_permission :
    RequestContext → List String → Option Uuid → Result (Unit {0})
require_scoped_permission ctx permissions loc =
    if ctx.is_owner
    then ok tt
    else guard (any (has_scoped ctx loc) permissions)
        (permission_denied (first_of_list permissions))

abbrev pub grants_everywhere : String → Grant → Bool
grants_everywhere permission grant = str_eq grant.permission permission && is_everywhere grant.scope

unfoldable pub assert_grantable_permissions : RequestContext → List String → Result (Unit {0})
assert_grantable_permissions ctx permissions =
    if not ctx.is_owner && any (λ p. not (any (grants_everywhere p) ctx.scoped_grants)) permissions
    then err (permission_denied "access.grant_subset")
    else ok tt
