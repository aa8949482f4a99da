-- ===== src/Sessions/Principal.antt =====
-- packages/database/src/auth.ts: `buildPrincipal`, `assertAccessSession` and
-- `assertLocationAccess`. The names of roles and users are left out, and so is the order of rows.
use daja_platform.Base.{
  ℕ, String, Bool, not, Option, none, some, List, [], ◌∷◌, ◌++◌, ◌&&◌, ◌||◌, ◌==◌, any, map, length,
  str_eq, if◌then◌else◌, where_rows, update_rows, Action, gets, modify, raise_if, check, guard,
  ◌>>=◌, ◌>>◌,
}
use daja_platform.Context.{Uuid, Grant, Scope, same_id}
use daja_platform.Security.Errors.{invalid_token, invalid_credentials, tenant_access_denied}
use daja_platform.Access.Grants.{is_everywhere}
use daja_platform.Access.Policy.{
  Policy, Role, Assignment, User, Location, assignments_of, is_owner_code, is_role, permissions_of,
}
use daja_platform.Sessions.Schema.{StaffDevice, PolicyVersion, AuthDb}
use daja_platform.Sessions.Repository.{is_access_session}

-- A row of the query on grants: `LEFT JOIN role_permissions`.
pub record GrantRow : Type 0 where
  pub role_code : Option String
  pub permission : Option String
  pub scope : Scope
  pub location_id : Option Uuid

abbrev pub grant_row : Assignment → Role → Option String → GrantRow
grant_row a r permission = record {
  role_code = r.code;
  permission = permission;
  scope = a.scope;
  location_id = a.location_id;
}

unfoldable pub rows_of_role : Policy → Assignment → Role → List GrantRow
rows_of_role db a r = elim (permissions_of r.id db.role_permissions) [
  | [] ↦ grant_row a r none ∷ []
  | p ∷ ps ↦ map (λ x. grant_row a r (some x)) (p ∷ ps)
]

unfoldable pub rows_of_roles : Policy → Assignment → List Role → List GrantRow
rows_of_roles db a [] = []
rows_of_roles db a (r ∷ rs) = rows_of_role db a r ++ rows_of_roles db a rs

unfoldable pub rows_of_assignments : Policy → Uuid → List Assignment → List GrantRow
unfolding rows_of_roles rows_of_role
rows_of_assignments db org [] = []
rows_of_assignments db org (a ∷ rest) =
    rows_of_roles db a (where_rows (is_role org a.role_id) db.roles)
    ++ rows_of_assignments db org rest

unfoldable pub grant_rows : Policy → Uuid → Uuid → List GrantRow
unfolding rows_of_assignments
grant_rows db org user = rows_of_assignments db org (assignments_of org user db.assignments)

unfoldable pub grants_of : List GrantRow → List Grant
grants_of [] = []
grants_of (row ∷ rows) = elim row.permission [
  | none ↦ grants_of rows
  | some p ↦
      record { permission = p; scope = row.scope; location_id = row.location_id } ∷ grants_of rows
]

abbrev pub same_grant : Grant → Grant → Bool
same_grant g h =
    str_eq g.permission h.permission
    && not (is_everywhere g.scope && not (is_everywhere h.scope))
    && not (is_everywhere h.scope && not (is_everywhere g.scope))
    && same_id g.location_id h.location_id

-- The elements of which no equal one has been seen.
unfoldable pub distinct : {A : Type 0} → (A → A → Bool) → List A → List A → List A
distinct same seen [] = []
distinct same seen (x ∷ xs) =
    let rest = distinct same (x ∷ seen) xs in if any (same x) seen then rest else x ∷ rest

pub record Principal : Type 0 where
  pub user_id : Uuid
  pub organization_id : Uuid
  pub device_id : Uuid
  pub session_family_id : Uuid
  pub session_id : Option Uuid
  pub permissions : List String
  pub scoped_grants : List Grant
  pub policy_version : ℕ
  pub is_owner : Bool

pub record PrincipalInput : Type 0 where
  pub organization_id : Uuid
  pub user_id : Uuid
  pub device_id : Uuid
  pub session_family_id : Uuid
  pub session_id : Option Uuid

unfoldable pub version_of : Uuid → List PolicyVersion → ℕ
version_of org [] = 1
version_of org (v ∷ vs) = if v.organization_id == org then v.policy_version else version_of org vs

unfoldable pub principal_of : AuthDb → PrincipalInput → Principal
unfolding grant_rows grants_of distinct version_of
principal_of db input =
    let rows = grant_rows db.policy input.organization_id input.user_id in
    let scoped = distinct same_grant [] (grants_of rows) in
    record {
      user_id = input.user_id;
      organization_id = input.organization_id;
      device_id = input.device_id;
      session_family_id = input.session_family_id;
      session_id = input.session_id;
      permissions = distinct str_eq [] (map (λ g. g.permission) scoped);
      scoped_grants = scoped;
      policy_version = version_of input.organization_id db.policy_versions;
      is_owner = any (λ r. is_owner_code r.role_code) rows;
    }

abbrev pub is_active_user : Uuid → Uuid → User → Bool
is_active_user org user u = u.id == user && u.organization_id == org && u.active

abbrev pub is_open_device : Uuid → Uuid → StaffDevice → Bool
is_open_device org device d =
    d.id == device && d.organization_id == org && d.active && not d.revoked && not d.deleted

unfoldable pub build_principal : PrincipalInput → Action AuthDb Principal
unfolding principal_of
build_principal input = do
  db ← gets λ s. s
  raise_if (not (any (is_active_user input.organization_id input.user_id) db.policy.users))
      invalid_credentials
  modify λ s. record s {
    devices =
        update_rows (is_open_device input.organization_id input.device_id)
          (λ d. record d { user_id = input.user_id }) s.devices;
  }
  raise_if
      (not (
        length (where_rows (is_open_device input.organization_id input.device_id) db.devices) == 1))
      tenant_access_denied
  gets λ s. principal_of s input

unfoldable pub assert_access_session :
    ℕ → Uuid → Uuid → Uuid → Uuid → Uuid → Action AuthDb (Unit {0})
assert_access_session now org user device family id = check λ db.
    guard (length (where_rows (is_access_session now org user device family id) db.sessions) == 1)
      (invalid_token "Invalid authentication token")

abbrev pub reaches_location : Uuid → Uuid → Uuid → Assignment → Bool
reaches_location org user loc a =
    a.organization_id == org
    && a.user_id == user
    && not a.deleted
    && (is_everywhere a.scope || same_id a.location_id (some loc))

abbrev pub is_open_location : Uuid → Uuid → Location → Bool
is_open_location org loc l = l.id == loc && l.organization_id == org && l.active && not l.deleted

unfoldable pub assert_location_access : Uuid → Uuid → Uuid → Action AuthDb (Unit {0})
assert_location_access org user loc = check λ db.
    guard
      (length (where_rows (is_open_location org loc) db.policy.locations) == 1
        && any (reaches_location org user loc) db.policy.assignments)
      tenant_access_denied
