-- ===== src/Access/Commands.antt =====
-- apps/api/src/sync-authorization.ts: which permission a pushed command needs, and where.
-- `id_text` is the text of an id.
use Prim.Native.Char.{code}
use daja_platform.Base.{
  String, Bool, true, false, not, Option, none, some, List, [], ◌∷◌, ◌++◌, map, ◌&&◌, ◌||◌, ◌==◌,
  str_eq, if◌then◌else◌, any, where_rows, is_empty, Result, err, guard,
}
use daja_platform.Context.{Uuid, Grant, RequestContext}
use daja_platform.Json.{Json, text, object, Fields, end, get_field}
use daja_platform.Security.Errors.{permission_denied, validation_failed}
use daja_platform.Inventory.Schema.{Warehouse, Zone, Bin}
use daja_platform.Sync.Schema.{PushEvent}
use daja_platform.Access.Grants.{is_everywhere, includes, first_of_list}

pub record Command : Type 0 where
  pub kind : String
  pub permissions : List String

abbrev pub command : String → List String → Command
command kind permissions = record { kind = kind; permissions = permissions }

-- `commandPermissions`
unfoldable pub command_permissions : List Command
command_permissions =
    command "item.create" ("items.create" ∷ "catalog.write" ∷ [])
    ∷ command "item.update" ("items.update" ∷ "catalog.write" ∷ [])
    ∷ command "item.archive" ("items.archive" ∷ "catalog.write" ∷ [])
    ∷ command "item.delete" ("items.archive" ∷ "catalog.write" ∷ [])
    ∷ command "item.promotion.clear" ("items.update" ∷ "catalog.write" ∷ [])
    ∷ command "tag.assign" ("inventory.update" ∷ "rfid.assign" ∷ [])
    ∷ command "inventory.event" ("inventory.adjust_inventory" ∷ "inventory.adjust" ∷ [])
    ∷ command "inventory.relocate" ("inventory.adjust_inventory" ∷ "inventory.adjust" ∷ [])
    ∷ command "count.create" ("rfid_counts.create" ∷ [])
    ∷ command "count.action" ("rfid_counts.update" ∷ [])
    ∷ command "sale.confirm" ("sales.confirm" ∷ [])
    ∷ command "return.confirm" ("returns.confirm" ∷ [])
    ∷ command "receipt.draft.create" ("receipts.create" ∷ [])
    ∷ command "receipt.draft.update" ("receipts.update" ∷ [])
    ∷ command "receipt.item.add" ("receipts.update" ∷ [])
    ∷ command "receipt.confirm" ("receipts.confirm" ∷ [])
    ∷ command "transfer.create" ("transfers.create" ∷ [])
    ∷ command "transfer.action" ("transfers.update" ∷ [])
    ∷ command "location.upsert" ("settings.configure" ∷ [])
    ∷ command "location.delete" ("settings.configure" ∷ [])
    ∷ command "location.layout.initialize" ("settings.configure" ∷ [])
    ∷ command "warehouse.zone.upsert" ("warehouse.update" ∷ "warehouse.create" ∷ [])
    ∷ command "warehouse.zone.delete" ("warehouse.delete" ∷ [])
    ∷ command "warehouse.bin.upsert" ("warehouse.update" ∷ "warehouse.create" ∷ [])
    ∷ command "warehouse.bin.delete" ("warehouse.delete" ∷ [])
    ∷ command "category.upsert" ("settings.configure" ∷ [])
    ∷ command "category.delete" ("settings.configure" ∷ [])
    ∷ command "supplier.upsert" ("settings.configure" ∷ [])
    ∷ command "supplier.delete" ("settings.configure" ∷ [])
    ∷ command "settings.update" ("settings.configure" ∷ [])
    ∷ command "user.invite" ("users.create" ∷ "admin.users" ∷ [])
    ∷ command "user.action" ("users.update" ∷ "admin.users" ∷ [])
    ∷ command "user.assignments.update" ("users.update" ∷ "admin.users" ∷ [])
    ∷ command "role.create" ("roles.create" ∷ "admin.users" ∷ [])
    ∷ command "role.update" ("roles.update" ∷ "admin.users" ∷ [])
    ∷ command "role.delete" ("roles.delete" ∷ "admin.users" ∷ [])
    ∷ command "role.permissions.update" ("roles.manage_permissions" ∷ "admin.users" ∷ [])
    ∷ map (λ kind. command kind ("catalog.write" ∷ []))
        ("catalog.brand.create" ∷ "catalog.brand.update" ∷ "catalog.brand.delete"
          ∷ "catalog.category.create" ∷ "catalog.category.update" ∷ "catalog.category.delete"
          ∷ "catalog.specification.create" ∷ "catalog.specification.update"
          ∷ "catalog.specification.delete" ∷ [])

-- The names that `commandPermissions[kind]` finds on every object: what it finds is no list, so it
-- passes the test for a missing command and names no permission. An owner is then let through, and
-- for anyone else the source raises a TypeError, which here is a refusal too.
abbrev pub inherited_names : List String
inherited_names =
    "constructor" ∷ "__defineGetter__" ∷ "__defineSetter__" ∷ "hasOwnProperty" ∷ "__lookupGetter__"
    ∷ "__lookupSetter__" ∷ "isPrototypeOf" ∷ "propertyIsEnumerable" ∷ "toString" ∷ "valueOf"
    ∷ "__proto__" ∷ "toLocaleString" ∷ []

abbrev pub lookup_command : String → List Command → Option (List String)
lookup_command kind [] = if includes kind inherited_names then some [] else none
lookup_command kind (c ∷ cs) =
    if str_eq c.kind kind then some c.permissions else lookup_command kind cs

-- `record(value)`
abbrev pub record_of : Option Json → Fields
record_of (some (object fields)) = fields
record_of _ = end

abbrev pub text_or_empty : Option Json → String
text_or_empty (some (text s)) = s
text_or_empty _ = ""

abbrev pub is_text : String → Option Json → Bool
is_text expected (some (text s)) = str_eq s expected
is_text expected _ = false

-- `value !== undefined && value !== expected`
abbrev pub differs : String → Option Json → Bool
differs expected none = false
differs expected (some v) = not (is_text expected (some v))

abbrev pub starts_with : String → String → Bool
starts_with String.[] s = true
starts_with (String.◌∷◌ c p) String.[] = false
starts_with (String.◌∷◌ c p) (String.◌∷◌ d s) = code c == code d && starts_with p s

abbrev pub command_of : PushEvent → Fields
command_of event = record_of (get_field "command" event.payload)

abbrev pub snapshot_of : PushEvent → Fields
snapshot_of event = record_of (get_field "operationalSnapshot" event.payload)

abbrev pub is_count : PushEvent → Bool
is_count event = is_text "rfid.cycle_count" (get_field "kind" (snapshot_of event))

abbrev pub payload_of : PushEvent → Fields
payload_of event =
    if is_count event
    then record_of (get_field "count" (snapshot_of event))
    else record_of (get_field "payload" (command_of event))

abbrev pub kind_of : PushEvent → String
kind_of event = text_or_empty (get_field "kind" (command_of event))

abbrev pub permissions_for : PushEvent → Option (List String)
permissions_for event =
    if is_count event
    then some ("rfid_counts.sync" ∷ [])
    else lookup_command (kind_of event) command_permissions

-- Completing a count needs a permission of its own.
abbrev pub required_for : PushEvent → List String → List String
required_for event permissions =
    if str_eq (kind_of event) "count.action"
      && is_text "complete" (get_field "action" (payload_of event))
    then "rfid_counts.confirm" ∷ []
    else permissions

abbrev pub location_keys : List String
location_keys =
    "locationId" ∷ "sourceLocationId" ∷ "targetLocationId" ∷ "destinationLocationId"
    ∷ "fromLocationId" ∷ "toLocationId" ∷ []

abbrev pub texts_at : List String → Fields → List String
texts_at [] fields = []
texts_at (key ∷ keys) fields = elim (get_field key fields) [
  | some (text s) ↦ s ∷ texts_at keys fields
  | _ ↦ texts_at keys fields
]

pub record Layout : Type 0 where
  pub warehouses : List Warehouse
  pub zones : List Zone
  pub bins : List Bin

-- `a ?? b` where a null counts as absent, for the two keys of a bin
abbrev pub bin_key : Fields → String
bin_key payload = elim (get_field "binId" payload) [
  | none ↦ text_or_empty (get_field "id" payload)
  | some Json.null ↦ text_or_empty (get_field "id" payload)
  | some v ↦ text_or_empty (some v)
]

module _ (id_text : Uuid → String) where
  -- The zone is asked for, or one of its bins is.
  abbrev pub is_zone_asked : Layout → Fields → Warehouse → Zone → Bool
  is_zone_asked layout payload w z =
      z.warehouse_id == w.id
      && z.organization_id == w.organization_id
      && (str_eq (id_text z.id) (text_or_empty (get_field "zoneId" payload))
          || any
              (λ b.
                b.zone_id == z.id
                && b.organization_id == w.organization_id
                && str_eq (id_text b.id) (bin_key payload))
              layout.bins)

  -- The SELECT on warehouses.
  abbrev pub is_asked : Uuid → Layout → Fields → Warehouse → Bool
  is_asked org layout payload w =
      w.organization_id == org
      && (str_eq (id_text w.id) (text_or_empty (get_field "warehouseId" payload))
          || any (is_zone_asked layout payload w) layout.zones)

  abbrev pub warehouse_locations : Uuid → Layout → PushEvent → List String
  warehouse_locations org layout event =
      if starts_with "warehouse." (kind_of event)
      then map (λ w. id_text w.location_id)
          (where_rows (is_asked org layout (payload_of event)) layout.warehouses)
      else []

  abbrev pub own_location : Option Uuid → List String
  own_location none = []
  own_location (some id) = id_text id ∷ []

  -- `locations`, with repetitions
  abbrev pub locations_for : Uuid → Layout → PushEvent → List String
  locations_for org layout event =
      texts_at location_keys (payload_of event)
      ++ own_location event.location_id
      ++ warehouse_locations org layout event

  abbrev pub is_grant_at : Option String → Grant → Bool
  is_grant_at none grant = false
  is_grant_at (some place) grant = elim grant.location_id [
    | none ↦ false
    | some l ↦ str_eq (id_text l) place
  ]

  abbrev pub has_grant : RequestContext → Option String → String → Bool
  has_grant ctx place permission =
      includes permission ctx.permissions
      && any
          (λ grant.
            str_eq grant.permission permission
            && (is_everywhere grant.scope || is_grant_at place grant))
          ctx.scoped_grants

  -- `allows`
  abbrev pub allows_place : RequestContext → List String → Option String → Bool
  allows_place ctx required place = any (has_grant ctx place) required

  abbrev pub refused_somewhere : RequestContext → List String → List String → Bool
  refused_somewhere ctx required places =
      if is_empty places
      then not (allows_place ctx required none)
      else any (λ place. not (allows_place ctx required (some place))) places

  unfoldable pub authorize_command : RequestContext → List String → List String → Result (Unit {0})
  authorize_command ctx required places =
      guard (ctx.is_owner || not (refused_somewhere ctx required places))
        (permission_denied (first_of_list required))

  unfoldable pub authorize_sync_event : RequestContext → Layout → PushEvent → Result (Unit {0})
  unfolding authorize_command
  authorize_sync_event ctx layout event =
      if differs (id_text ctx.organization_id) (get_field "organizationId" (payload_of event))
      then err (permission_denied "sync.organization")
      else if differs (id_text ctx.user_id) (get_field "actorUserId" (payload_of event))
      then err (permission_denied "sync.actor")
      else elim (permissions_for event) [
        | none ↦ err (validation_failed "Unsupported sync command.")
        | some permissions ↦
            authorize_command ctx (required_for event permissions)
              (locations_for ctx.organization_id layout event)
      ]
