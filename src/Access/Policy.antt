-- ===== src/Access/Policy.antt =====
-- apps/api/src/access-policy.ts: the checks that read the organization's roles and users.
-- `lockAccessPolicy`, which takes a row lock and changes nothing, is left out.
use daja_platform.Base.{
  String, Bool, true, false, not, Option, none, some, List, [], ◌∷◌, ◌&&◌, ◌||◌, ◌==◌,
  if◌then◌else◌, str_eq, any, find_row, where_rows, map, Result, ok, err, guard, and_then,
}
use daja_platform.Context.{Uuid, Grant, Scope, RequestContext}
use daja_platform.Security.Errors.{permission_denied, resource_not_found, validation_failed}
use daja_platform.Access.Grants.{assert_grantable_permissions, is_everywhere, is_at}

pub record Role : Type 0 where
  pub id : Uuid
  pub organization_id : Uuid
  pub code : Option String
  pub deleted : Bool

pub record RolePermission : Type 0 where
  pub role_id : Uuid
  pub permission_id : String

pub record User : Type 0 where
  pub id : Uuid
  pub organization_id : Uuid
  pub active : Bool

pub record Assignment : Type 0 where
  pub organization_id : Uuid
  pub user_id : Uuid
  pub role_id : Uuid
  pub scope : Scope
  pub location_id : Option Uuid
  pub deleted : Bool

pub record Location : Type 0 where
  pub id : Uuid
  pub organization_id : Uuid
  pub active : Bool
  pub deleted : Bool

pub record Policy : Type 0 where
  pub roles : List Role
  pub role_permissions : List RolePermission
  pub users : List User
  pub assignments : List Assignment
  pub locations : List Location

abbrev pub is_role : Uuid → Uuid → Role → Bool
is_role org id r = r.id == id && r.organization_id == org && not r.deleted

abbrev pub permissions_of : Uuid → List RolePermission → List String
permissions_of role rows = map (λ p. p.permission_id) (where_rows (λ p. p.role_id == role) rows)

abbrev pub is_owner_code : Option String → Bool
is_owner_code none = false
is_owner_code (some code) = str_eq code "owner"

unfoldable pub grantable_role : Policy → RequestContext → Uuid → Bool → Result Role
grantable_role db ctx role_id mutable =
    elim (find_row (is_role ctx.organization_id role_id) db.roles) [
      | none ↦ err (resource_not_found "role")
      | some role ↦
          if is_owner_code role.code && (mutable || not ctx.is_owner)
          then err (permission_denied "owner.protected")
          else and_then
              (assert_grantable_permissions ctx (permissions_of role_id db.role_permissions))
              (λ _. ok role)
    ]

abbrev pub manages_users : String → Bool
manages_users p = str_eq p "users.create" || str_eq p "users.update" || str_eq p "admin.users"

abbrev pub manages_at : Uuid → Grant → Bool
manages_at loc grant =
    manages_users grant.permission && (is_everywhere grant.scope || is_at (some loc) grant)

unfoldable pub assignable_location : Policy → RequestContext → Uuid → Result (Unit {0})
assignable_location db ctx loc =
    if not (
      any (λ l. l.id == loc && l.organization_id == ctx.organization_id && not l.deleted)
        db.locations)
    then err (resource_not_found "location")
    else guard (ctx.is_owner || any (manages_at loc) ctx.scoped_grants)
        (permission_denied "users.scope")

-- `assignment.location_id` of an assignment whose scope is a location
abbrev pub scoped_location : Assignment → Option Uuid
scoped_location a = if is_everywhere a.scope then none else a.location_id

-- One round of the loop in `manageableUser`.
unfoldable pub manageable_assignment : Policy → RequestContext → Assignment → Result (Unit {0})
manageable_assignment db ctx a = elim (scoped_location a) [
  | none ↦ err (permission_denied "users.scope")
  | some loc ↦
      and_then (assignable_location db ctx loc)
        (λ _. and_then (grantable_role db ctx a.role_id false) (λ _. ok tt))
]

unfoldable pub manageable_all : Policy → RequestContext → List Assignment → Result (Unit {0})
manageable_all db ctx [] = ok tt
manageable_all db ctx (a ∷ rest) =
    and_then (manageable_assignment db ctx a) (λ _. manageable_all db ctx rest)

abbrev pub assignments_of : Uuid → Uuid → List Assignment → List Assignment
assignments_of org user =
    where_rows (λ a. a.organization_id == org && a.user_id == user && not a.deleted)

unfoldable pub manageable_user : Policy → RequestContext → Uuid → Result (Unit {0})
manageable_user db ctx user_id =
    if not (any (λ u. u.id == user_id && u.organization_id == ctx.organization_id) db.users)
    then err (resource_not_found "user")
    else if ctx.is_owner
    then ok tt
    else manageable_all db ctx (assignments_of ctx.organization_id user_id db.assignments)

-- An assignment of the owner role; the role may be asked to be live.
abbrev pub is_owner_assignment : Bool → Uuid → List Role → Assignment → Bool
is_owner_assignment live org roles a =
    a.organization_id == org
    && any
        (λ r.
          r.id == a.role_id
          && r.organization_id == org
          && is_owner_code r.code
          && not (live && r.deleted))
        roles

abbrev pub is_active_owner : Uuid → Policy → Assignment → Bool
is_active_owner org db a =
    not a.deleted
    && is_owner_assignment true org db.roles a
    && any (λ u. u.id == a.user_id && u.organization_id == org && u.active) db.users

unfoldable pub require_active_owner : Policy → RequestContext → Result (Unit {0})
require_active_owner db ctx =
    if any (is_active_owner ctx.organization_id db) db.assignments
    then ok tt
    else if any (is_owner_assignment false ctx.organization_id db.roles) db.assignments
    then err (validation_failed "The organization must retain an active owner.")
    else ok tt
