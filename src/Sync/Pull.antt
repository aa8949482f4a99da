-- ===== src/Sync/Pull.antt =====
-- packages/database/src/sync.ts: `syncLocations` and `pull`. `id_text` is the text of an id, as the
-- payload of an event spells it.
use daja_platform.Base.{
  ℕ, ◌+◌, String, Bool, true, false, Option, none, some, List, [], ◌∷◌, ◌&&◌, ◌||◌, not, ◌==◌, ltb,
  if◌then◌else◌, str_eq, any, take, length, where_rows, map, Result, ok, err,
}
use daja_platform.Context.{Uuid, Grant, Scope, RequestContext}
use daja_platform.Json.{
  Json, null, bool, number, text, array, object, Items, nil, cons, Fields, end, field, folded,
  ends_in,
}
use daja_platform.Security.Errors.{validation_failed}
use daja_platform.Sync.Schema.{SyncEvent, Store}
use daja_platform.Sync.Append.{map_sync_event}

abbrev pub is_everywhere : Scope → Bool
is_everywhere Scope.all_locations = true
is_everywhere Scope.location = false

abbrev pub contains : Uuid → List Uuid → Bool
contains id = any (λ other. other == id)

-- `new Set(ids)`
abbrev pub unique : List Uuid → List Uuid
unique [] = []
unique (id ∷ ids) = let rest = unique ids in if contains id rest then rest else id ∷ rest

abbrev pub reads_at : Grant → List Uuid
reads_at grant =
    if str_eq grant.permission "sync.read" && not (is_everywhere grant.scope)
    then elim grant.location_id [ none ↦ [] | some id ↦ id ∷ [] ]
    else []

abbrev pub locations_of : List Grant → List Uuid
locations_of [] = []
locations_of (grant ∷ grants) =
    let rest = locations_of grants in elim (reads_at grant) [ [] ↦ rest | id ∷ _ ↦ id ∷ rest ]

-- `null`, here `none`, is no restriction.
unfoldable pub sync_locations : RequestContext → Option (List Uuid)
sync_locations ctx =
    if ctx.is_owner
      || any (λ grant. str_eq grant.permission "sync.read" && is_everywhere grant.scope)
          ctx.scoped_grants
    then none
    else some (unique (locations_of ctx.scoped_grants))

-- The parameter `$6` of the query.
unfoldable pub sees_people : RequestContext → Bool
sees_people ctx =
    ctx.is_owner
    || any
        (λ grant.
          (str_eq grant.permission "admin.users"
            || str_eq grant.permission "users.view"
            || str_eq grant.permission "roles.view")
          && is_everywhere grant.scope)
        ctx.scoped_grants

-- `location_id IS NULL OR …` for a location and for a list of locations, each of which may be null
abbrev pub matches_location : Option Uuid → Option Uuid → Bool
matches_location (some wanted) (some loc) = loc == wanted
matches_location none loc = true
matches_location (some wanted) none = true

abbrev pub among_locations : Option (List Uuid) → Option Uuid → Bool
among_locations (some ids) (some loc) = contains loc ids
among_locations none loc = true
among_locations (some ids) none = true

-- The WHERE clause without its bound on the revision.
unfoldable pub selects : RequestContext → SyncEvent → Bool
unfolding sees_people sync_locations
selects ctx e =
    e.organization_id == ctx.organization_id
    && matches_location ctx.location_id e.location_id
    && among_locations (sync_locations ctx) e.location_id
    && (not (str_eq e.aggregate_type "user" || str_eq e.aggregate_type "role") || sees_people ctx)

-- `ORDER BY revision ASC`
unfoldable pub insert_event : SyncEvent → List SyncEvent → List SyncEvent
insert_event e [] = e ∷ []
insert_event e (f ∷ fs) =
    let later = insert_event e fs in if ltb f.revision e.revision then f ∷ later else e ∷ f ∷ fs

unfoldable pub by_revision : List SyncEvent → List SyncEvent
by_revision [] = []
by_revision (e ∷ es) = insert_event e (by_revision es)

-- The rows of an organization in order, and those of them that the query selects.
unfoldable pub log_of : Uuid → Store → List SyncEvent
unfolding by_revision insert_event
log_of org s = by_revision (where_rows (λ e. e.organization_id == org) s.events)

unfoldable pub rows_after : RequestContext → ℕ → List SyncEvent → List SyncEvent
rows_after ctx after = where_rows (λ e. selects ctx e && ltb after e.revision)

-- `/location_?id$/i.test(key)`
unfoldable pub is_location_key : String → Bool
is_location_key key =
    ends_in (folded "locationid") (folded key) || ends_in (folded "location_id") (folded key)

-- `scanned.at(-1)?.revision ?? after`
unfoldable pub last_revision : ℕ → List SyncEvent → ℕ
last_revision after [] = after
last_revision after (e ∷ es) = last_revision e.revision es

pub record Page : Type 0 where
  pub events : List SyncEvent
  pub next_revision : ℕ
  pub has_more : Bool

module _ (id_text : Uuid → String) where
  -- The value at a location key: not a text, or the id of an allowed location.
  unfoldable pub allowed_item : List Uuid → Json → Bool
  allowed_item ids (text s) = any (λ id. str_eq (id_text id) s) ids
  allowed_item ids _ = true

  unfoldable mutual
    pub visible : List Uuid → Json → Bool
    visible ids (array items) = visible_items ids items
    visible ids (object fields) = visible_fields ids fields
    visible ids null = true
    visible ids (bool b) = true
    visible ids (number n) = true
    visible ids (text s) = true

    pub visible_items : List Uuid → Items → Bool
    visible_items ids nil = true
    visible_items ids (cons v rest) = visible ids v && visible_items ids rest

    pub visible_fields : List Uuid → Fields → Bool
    visible_fields ids end = true
    visible_fields ids (field k v rest) =
        (if is_location_key k then allowed_item ids v else visible ids v) && visible_fields ids rest

  unfoldable pub visible_base : List Uuid → Option Json → Bool
  visible_base ids none = true
  visible_base ids (some v) = visible ids v

  unfoldable pub restrict : Option (List Uuid) → List SyncEvent → List SyncEvent
  unfolding visible visible_base
  restrict none scanned = scanned
  restrict (some ids) scanned =
      where_rows (λ e. visible ids e.payload && visible_base ids e.base_payload) scanned

  unfoldable pub pull : RequestContext → ℕ → ℕ → Store → Result Page
  pull ctx after limit s =
      if ltb limit 1 || ltb 500 limit
      then err (validation_failed "Invalid sync pull pagination")
      else (let result = take (limit + 1) (rows_after ctx after (log_of ctx.organization_id s)) in
          let scanned = map map_sync_event (take limit result) in
          ok (record {
            events = restrict (sync_locations ctx) scanned;
            next_revision = last_revision after scanned;
            has_more = ltb limit (length result);
          }))
