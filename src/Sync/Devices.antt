-- ===== src/Sync/Devices.antt =====
-- packages/database/src/sync.ts: `class DeviceRepository`. `now` is the database's clock, `allowed`
-- stands for the constraints of the table, and the columns that no operation reads are left out.
use daja_platform.Base.{
  ℕ, ◌+◌, ◌≡◌, String, Bool, true, false, not, Option, none, some, List, [], ◌∷◌, ◌&&◌, ◌==◌,
  if◌then◌else◌, length, where_rows, find_row, update_rows, ok, Action, pure, gets, modify,
  raise_if, or_raise, arith, inl, inr, refl, Bool-cases, Option-cases, ◌>>=◌, ◌>>◌,
}
use mathlib.Core.Path.{subst}
use daja_platform.Base.Rows.{find_row-passes}
use daja_platform.Context.{Uuid, RequestContext, or_else}
use daja_platform.Security.Errors.{resource_conflict, tenant_access_denied, other_error}
use daja_platform.Sync.Schema.{Device, Store}

pub record Registration : Type 0 where
  pub device_key : Uuid
  pub display_name : String
  pub device_type : String
  pub location_id : Option Uuid

-- The conflict target: `(organization_id, device_key) WHERE deleted_at IS NULL`
abbrev pub has_device_key : Uuid → Uuid → Device → Bool
has_device_key org key d = d.organization_id == org && d.device_key == key && not d.deleted

abbrev pub new_device : Uuid → RequestContext → Registration → Device
new_device id ctx input = record {
  id = id;
  organization_id = ctx.organization_id;
  device_key = input.device_key;
  user_id = ctx.user_id;
  location_id = or_else input.location_id ctx.location_id;
  display_name = input.display_name;
  device_type = input.device_type;
  active = true;
  revoked = false;
  deleted = false;
  seen = none;
  version = 1;
}

-- The DO UPDATE.
abbrev pub registered_again : ℕ → RequestContext → Registration → Device → Device
registered_again now ctx input d = record d {
  user_id = ctx.user_id;
  location_id = or_else input.location_id ctx.location_id;
  display_name = input.display_name;
  device_type = input.device_type;
  active = true;
  revoked = false;
  seen = some now;
  version = d.version + 1;
}

unfoldable pub upsert_device : ℕ → Uuid → RequestContext → Registration → List Device → List Device
upsert_device now id ctx input [] = new_device id ctx input ∷ []
upsert_device now id ctx input (d ∷ ds) =
    if has_device_key ctx.organization_id input.device_key d
    then registered_again now ctx input d ∷ ds
    else d ∷ upsert_device now id ctx input ds

unfoldable pub register_device :
    (Device → Bool) → ℕ → RequestContext → Registration → Action Store Device
unfolding upsert_device
register_device allowed now ctx input = do
  id ← gets (λ s. s.made)
  modify (λ s. record s { devices = upsert_device now id ctx input s.devices; made = s.made + 1 })
  row ← gets (λ s. find_row (has_device_key ctx.organization_id input.device_key) s.devices)
  device ← or_raise row (other_error "no row")
  raise_if (not (allowed device))
      (resource_conflict "Device registration violates tenant integrity")
  pure device

abbrev pub is_active_device : Uuid → Uuid → Device → Bool
is_active_device org id d =
    d.organization_id == org && d.id == id && d.active && not d.revoked && not d.deleted

unfoldable pub assert_active_device : ℕ → Uuid → Uuid → Action Store (Unit {0})
assert_active_device now org id = do
  count ← gets (λ s. length (where_rows (is_active_device org id) s.devices))
  modify (λ s. record s {
    devices = update_rows (is_active_device org id) (λ d. record d { seen = some now }) s.devices;
  })
  raise_if (not (count == 1)) tenant_access_denied

-- The live device under the key after the statement.
registered_row :
    (now : ℕ) (id : Uuid) (ctx : RequestContext) (input : Registration) (ds : List Device)
    → find_row
        (has_device_key ctx.organization_id input.device_key)
        (upsert_device now id ctx input ds)
      ≡ some (elim (find_row (has_device_key ctx.organization_id input.device_key) ds) [
        | none ↦ new_device id ctx input
        | some d ↦ registered_again now ctx input d
      ])
unfolding upsert_device
registered_row now id ctx input [] = ground arith
registered_row now id ctx input (d ∷ ds) =
    elim (Bool-cases (has_device_key ctx.organization_id input.device_key d)) [
      | inl t ↦ ground (arith, t)
      | inr n ↦ rw (n, n) (registered_row now id ctx input ds)
    ]

-- The version that the registration of a row leaves.
abbrev pub next_version : Option Device → ℕ
next_version none = 1
next_version (some d) = d.version + 1

-- A live device under a key of an organization, in use by a user.
pub record IsInUse (org key owner : Uuid) (number : ℕ) (device : Device) : Type 0 where
  pub organization : device.organization_id ≡ org
  pub device_key : device.device_key ≡ key
  pub user : device.user_id ≡ owner
  pub active : device.active ≡ true
  pub not_revoked : device.revoked ≡ false
  pub not_deleted : device.deleted ≡ false
  pub version : device.version ≡ number

-- A registration that returns returns the live device that is then found under its key. The device
-- is of the caller's organization, has the key, belongs to the caller, and is active, not revoked
-- and not deleted, even if it was inactive or revoked before; its version is 1 if no live device had
-- the key, and else one more than that device's version was.
pub register_device_returns :
    (allowed : Device → Bool) (now : ℕ) (ctx : RequestContext) (input : Registration) (s : Store)
    (device : Device)
    → (register_device allowed now ctx input s).0 ≡ ok device
    → (find_row
          (has_device_key ctx.organization_id input.device_key)
          (register_device allowed now ctx input s).1.devices
        ≡ some device)
      × IsInUse ctx.organization_id input.device_key ctx.user_id
          (next_version (find_row (has_device_key ctx.organization_id input.device_key) s.devices))
          device
unfolding register_device ◌>>=◌
register_device_returns allowed now ctx input s device h =
    let row = registered_row now s.made ctx input s.devices in
    elim (Option-cases (find_row (has_device_key ctx.organization_id input.device_key) s.devices)) [
      | inl n ↦
          let same : new_device s.made ctx input ≡ device = ground (arith, h, row, n) in
          (ground (arith, h, row), rw n (subst (IsInUse _ _ _ 1) same new_IsInUse))
      | inr (d, f) ↦
          let passes =
            find_row-passes (has_device_key ctx.organization_id input.device_key) s.devices d f in
          let same : registered_again now ctx input d ≡ device = ground (arith, h, row, f) in
          (
            ground (arith, h, row),
            rw f (subst (IsInUse _ _ _ (d.version + 1)) same (again_IsInUse d passes)),
          )
    ]
  where
    new_IsInUse :
        IsInUse ctx.organization_id input.device_key ctx.user_id 1 (new_device s.made ctx input)
    new_IsInUse = record {
      organization = refl;
      device_key = refl;
      user = refl;
      active = refl;
      not_revoked = refl;
      not_deleted = refl;
      version = refl;
    }

    again_IsInUse :
        (d : Device)
        → has_device_key ctx.organization_id input.device_key d ≡ true
        → IsInUse ctx.organization_id input.device_key ctx.user_id
            (d.version + 1)
            (registered_again now ctx input d)
    again_IsInUse d h = record {
      organization = ground (arith, h);
      device_key = ground (arith, h);
      user = refl;
      active = refl;
      not_revoked = refl;
      not_deleted = ground (arith, h);
      version = refl;
    }
