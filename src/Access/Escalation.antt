-- ===== src/Access/Escalation.antt =====
-- Nobody but an owner can hand out, or take from, more than they hold themselves.
use daja_platform.Base.{
  ◌≡◌, refl, String, Bool, true, false, some, List, [], ◌∷◌, All, any, find_row, Result, ok, err,
  arith, inl, inr, Option-cases, and_then,
}
use daja_platform.Base.Rows.{All-any}
use daja_platform.Context.{Uuid, RequestContext}
use daja_platform.Access.Grants.{grants_everywhere, assert_grantable_permissions}
use daja_platform.Access.Policy.{
  Role, Policy, Assignment, is_role, is_owner_code, permissions_of, manages_at, scoped_location,
  grantable_role, assignable_location, manageable_assignment, manageable_all, manageable_user,
  assignments_of,
}

-- The caller has a grant of the permission at all locations.
abbrev pub HoldsEverywhere : RequestContext → String → Type 0
HoldsEverywhere ctx p = any (grants_everywhere p) ctx.scoped_grants ≡ true

-- What it takes for a caller who is no owner to hand out a role.
pub record MayGrant (db : Policy) (ctx : RequestContext) (role_id : Uuid) (role : Role)
    : Type 0 where
  pub live : find_row (is_role ctx.organization_id role_id) db.roles ≡ some role
  pub no_owner : is_owner_code role.code ≡ false
  pub held : All (HoldsEverywhere ctx) (permissions_of role_id db.role_permissions)

-- A role that a caller who is no owner may grant is a live role of the organization, is not the
-- owner role, and has no permission that the caller does not hold at all locations.
pub grantable_role_sound :
    (db : Policy) (ctx : RequestContext) (role_id : Uuid) (mutable : Bool) (role : Role)
    → ctx.is_owner ≡ false
    → grantable_role db ctx role_id mutable ≡ ok role
    → MayGrant db ctx role_id role
unfolding grantable_role assert_grantable_permissions
grantable_role_sound db ctx role_id mutable role o h = record {
  live = ground (arith, o, h);
  no_owner = ground (arith, o, h);
  held =
      All-any (λ p. any (grants_everywhere p) ctx.scoped_grants)
        (permissions_of role_id db.role_permissions) (ground (arith, o, h));
}

-- What it takes for a caller who is no owner to change a user with this assignment.
pub record MayManage (db : Policy) (ctx : RequestContext) (a : Assignment) : Type 0 where
  pub place : Uuid
  pub role : Role
  pub at_place : scoped_location a ≡ some place
  pub manages : any (manages_at place) ctx.scoped_grants ≡ true
  pub grantable : MayGrant db ctx a.role_id role

manageable_role :
    (db : Policy) (ctx : RequestContext) (a : Assignment) (place : Uuid)
    → ctx.is_owner ≡ false
    → scoped_location a ≡ some place
    → any (manages_at place) ctx.scoped_grants ≡ true
    → (r : Result Role) → grantable_role db ctx a.role_id false ≡ r
    → and_then r (λ _. ok tt) ≡ ok tt
    → MayManage db ctx a
manageable_role db ctx a place o here m (ok role) e h = record {
  place = place;
  role = role;
  at_place = here;
  manages = m;
  grantable = grantable_role_sound db ctx a.role_id false role o e;
}
manageable_role db ctx a place o here m (err x) e h = absurd (ground (arith, h))

manageable_one :
    (db : Policy) (ctx : RequestContext) (a : Assignment)
    → ctx.is_owner ≡ false
    → manageable_assignment db ctx a ≡ ok tt
    → MayManage db ctx a
unfolding manageable_assignment assignable_location
manageable_one db ctx a o h = elim (Option-cases (scoped_location a)) [
  | inl e ↦ absurd (ground (arith, h, e))
  | inr (place, e) ↦
      manageable_role db ctx a place o e (ground (arith, h, e, o)) _ refl (ground (arith, h, e, o))
]

manageable_each :
    (db : Policy) (ctx : RequestContext) (rows : List Assignment)
    → ctx.is_owner ≡ false
    → manageable_all db ctx rows ≡ ok tt
    → All (MayManage db ctx) rows
unfolding manageable_all
manageable_each db ctx [] o h = tt
manageable_each db ctx (a ∷ rows) o h = (
  manageable_one db ctx a o (ground (arith, h)),
  manageable_each db ctx rows o (ground (arith, h)),
)

-- A caller who is no owner may change a user only if every live assignment of that user is at a
-- single location where the caller manages users, and to a role that the caller may grant.
pub manageable_user_sound :
    (db : Policy) (ctx : RequestContext) (user_id : Uuid)
    → ctx.is_owner ≡ false
    → manageable_user db ctx user_id ≡ ok tt
    → All (MayManage db ctx) (assignments_of ctx.organization_id user_id db.assignments)
unfolding manageable_user
manageable_user_sound db ctx user_id o h = manageable_each db ctx _ o (ground (arith, h, o))
