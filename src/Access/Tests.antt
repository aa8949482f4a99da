-- ===== src/Access/Tests.antt =====
-- Checks of grants, of roles and users, and of a pushed command.
use daja_platform.Base.{
  ◌≡◌, refl, String, ◌==◌, if◌then◌else◌, true, false, All, none, some, [], ◌∷◌, ok,
}
use daja_platform.Context.{Uuid, RequestContext, Scope}
use daja_platform.Access.Grants.{assert_grantable_permissions}
use daja_platform.Access.Policy.{
  Role, Policy, grantable_role, manageable_user, manageable_all, manageable_assignment,
  assignable_location, assignments_of,
}
use daja_platform.Access.Commands.{
  Layout, authorize_sync_event, authorize_command, command_permissions,
}
use daja_platform.Access.Authorized.{IsAuthorized, authorize_sync_event-IsAuthorized}
use daja_platform.Json.{text, object, end, field, get_field}
use daja_platform.Sync.Schema.{PushEvent}
use daja_platform.Access.Escalation.{
  MayGrant, grantable_role_sound, MayManage, manageable_user_sound,
}

abbrev manager : RequestContext
manager = record {
  organization_id = 1;
  user_id = 2;
  device_id = none;
  location_id = none;
  permissions = "users.update" ∷ "sales.create" ∷ [];
  scoped_grants =
      record { permission = "users.update"; scope = Scope.location; location_id = some 5 }
      ∷ record { permission = "sales.create"; scope = Scope.all_locations; location_id = none }
      ∷ [];
  is_owner = false;
}

abbrev seller : Role
seller = record { id = 8; organization_id = 1; code = some "seller"; deleted = false }

abbrev policy : Policy
policy = record {
  roles = seller ∷ [];
  role_permissions = record { role_id = 8; permission_id = "sales.create" } ∷ [];
  users = record { id = 3; organization_id = 1; active = true } ∷ [];
  assignments =
      record {
        organization_id = 1;
        user_id = 3;
        role_id = 8;
        scope = Scope.location;
        location_id = some 5;
        deleted = false;
      }
      ∷ [];
  locations = record { id = 5; organization_id = 1; active = true; deleted = false } ∷ [];
}

granted : grantable_role policy manager 8 true ≡ ok seller
unfolding grantable_role assert_grantable_permissions
granted = refl

grantable_role_sound_example : MayGrant policy manager 8 seller
grantable_role_sound_example = grantable_role_sound policy manager 8 true seller refl granted

managed : manageable_user policy manager 3 ≡ ok tt
unfolding manageable_user manageable_all manageable_assignment assignable_location grantable_role
    assert_grantable_permissions
managed = refl

manageable_user_sound_example :
    All (MayManage policy manager) (assignments_of 1 3 policy.assignments)
manageable_user_sound_example = manageable_user_sound policy manager 3 refl managed

abbrev id_text : Uuid → String
id_text id = if id == 5 then "five" else "other"

-- A sale at location 5.
abbrev sale : PushEvent
sale = record {
  event_id = 100;
  idempotency_key = 7;
  aggregate_type = "sale";
  aggregate_id = 50;
  operation = "create";
  base_version = none;
  payload_version = 1;
  payload =
      field "command"
        (object (
          field "kind" (text "sale.confirm")
            (field "payload" (object (field "locationId" (text "five") end)) end)))
        end;
  location_id = none;
  device_sequence = none;
  base_payload = none;
  offline_package_id = none;
  baseline_revision = none;
  business_command_id = none;
}

abbrev cashier : RequestContext
cashier = record manager {
  permissions = "sales.confirm" ∷ [];
  scoped_grants =
      record { permission = "sales.confirm"; scope = Scope.location; location_id = some 5 } ∷ [];
}

abbrev layout : Layout
layout = record { warehouses = []; zones = []; bins = [] }

sale_authorized : authorize_sync_event id_text cashier layout sale ≡ ok tt
unfolding authorize_sync_event authorize_command command_permissions get_field
sale_authorized = refl

authorize_sync_event-IsAuthorized_example : IsAuthorized id_text cashier layout sale
authorize_sync_event-IsAuthorized_example =
    authorize_sync_event-IsAuthorized id_text cashier layout sale refl sale_authorized
