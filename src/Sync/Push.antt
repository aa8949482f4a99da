-- ===== src/Sync/Push.antt =====
-- packages/database/src/sync.ts: `detectConflict`, `createConflict` and `pushBatch`. The projector
-- that `pushBatch` is given is an argument, `materialize`.
use daja_platform.Base.{
  ℕ, ◌+◌, String, Bool, true, false, Option, none, some, List, [], ◌∷◌, ◌&&◌, ◌||◌, ◌==◌, ltb,
  if◌then◌else◌, str_eq, find_row, length, Action, pure, gets, modify, raise_if, ◌>>=◌, ◌>>◌,
}
use daja_platform.Context.{Uuid, RequestContext}
use daja_platform.Json.{Json, text, array, object, nil, cons, get_field, redact_credentials}
use daja_platform.Security.Errors.{validation_failed}
use daja_platform.Sync.Schema.{
  VersionedTable, products, product_variants, rfid_tags, inventory_items, Aggregate, Conflict,
  ConflictStatus, SyncEvent, Store, PushEvent, Draft,
}
use daja_platform.Sync.Append.{has_key, append_server_event}

pub data PushStatus : Type 0 where
  duplicate : ℕ → PushStatus
  conflict : Uuid → PushStatus
  applied : ℕ → PushStatus

pub record PushResult : Type 0 where
  pub event_id : Uuid
  pub status : PushStatus

-- `String(value) === kind`; the text of an array of one is that of its element.
unfoldable pub names : String → Json → Bool
names kind (text s) = str_eq s kind
names kind (array (cons v nil)) = names kind v
names kind _ = false

-- The kind of a command that the last save wins for.
unfoldable pub overrides : Option Json → Bool
overrides none = false
overrides (some kind) = names "item.update" kind || names "item.delete" kind

unfoldable pub command_overrides : Option Json → Bool
command_overrides (some (object fields)) = overrides (get_field "kind" fields)
command_overrides _ = false

unfoldable pub table_of : String → Option VersionedTable
table_of kind =
    if str_eq kind "product"
    then some products
    else if str_eq kind "variant" || str_eq kind "product_variant"
    then some product_variants
    else if str_eq kind "rfid_tag"
    then some rfid_tags
    else if str_eq kind "inventory_item"
    then some inventory_items
    else none

unfoldable pub same_table : VersionedTable → VersionedTable → Bool
same_table products products = true
same_table product_variants product_variants = true
same_table rfid_tags rfid_tags = true
same_table inventory_items inventory_items = true
same_table _ _ = false

unfoldable pub find_aggregate : Uuid → String → Uuid → List Aggregate → Option Aggregate
find_aggregate org kind id rows = elim (table_of kind) [
  | none ↦ none
  | some table ↦
      find_row (λ row. row.organization_id == org && row.id == id && same_table row.table table)
        rows
]

-- The version of the row that the push is stale against.
unfoldable pub stale_version : Option Aggregate → ℕ → Option ℕ
stale_version none base = none
stale_version (some row) base = if row.version == base then none else some row.version

unfoldable pub detect_from : Uuid → PushEvent → Option ℕ → List Aggregate → Option ℕ
detect_from org event none rows = none
detect_from org event (some base) rows =
    stale_version (find_aggregate org event.aggregate_type event.aggregate_id rows) base

-- `none` is no conflict.
unfoldable pub detect_conflict : Uuid → PushEvent → Store → Option ℕ
detect_conflict org event s =
    if command_overrides (get_field "command" event.payload)
    then none
    else detect_from org event event.base_version s.aggregates

unfoldable pub create_conflict : RequestContext → PushEvent → ℕ → Action Store Uuid
create_conflict ctx event server_version = do
  id ← gets (λ s. s.made)
  let row : Conflict = record {
    id = id;
    organization_id = ctx.organization_id;
    device_id = ctx.device_id;
    user_id = ctx.user_id;
    aggregate_type = event.aggregate_type;
    aggregate_id = event.aggregate_id;
    operation = event.operation;
    base_version = event.base_version;
    server_version = server_version;
    client_payload = redact_credentials (object event.payload);
    status = ConflictStatus.unresolved;
    reason = "Base version does not match server version";
    resolution = none;
    resolved_by = none;
  }
  modify (λ s. record s { conflicts = row ∷ s.conflicts; made = s.made + 1 })
  pure id

-- The event as `appendServerEvent` takes it.
unfoldable pub draft_of : PushEvent → Draft
draft_of event = record {
  aggregate_type = event.aggregate_type;
  aggregate_id = event.aggregate_id;
  operation = event.operation;
  payload = object event.payload;
  payload_version = some event.payload_version;
  base_version = event.base_version;
  idempotency_key = some event.idempotency_key;
  location_id = event.location_id;
  device_sequence = event.device_sequence;
  base_payload = event.base_payload;
  offline_package_id = event.offline_package_id;
  baseline_revision = event.baseline_revision;
  business_command_id = event.business_command_id;
}

module _ (materialize : PushEvent → Action Store PushEvent) (ctx : RequestContext) where
  -- The rest of the loop's body for an event that was not pushed before.
  unfoldable pub push_new : PushEvent → Option ℕ → Action Store PushStatus
  push_new event (some version) = do id ← create_conflict ctx event version; pure (conflict id)
  push_new event none = do
    projected ← materialize event
    appended ← append_server_event ctx (draft_of projected)
    pure (applied appended.revision)

  unfoldable pub push_found : PushEvent → Option SyncEvent → Action Store PushStatus
  push_found event (some known) = pure (duplicate known.revision)
  push_found event none = do
    stale ← gets (detect_conflict ctx.organization_id event)
    push_new event stale

  unfoldable pub push_one : PushEvent → Action Store PushResult
  push_one event = do
    known ← gets (λ s. find_row (has_key ctx.organization_id event.idempotency_key) s.events)
    status ← push_found event known
    pure (record { event_id = event.event_id; status = status })

  unfoldable pub push_all : List PushEvent → Action Store (List PushResult)
  push_all [] = pure []
  push_all (event ∷ events) = do
    result ← push_one event
    results ← push_all events
    pure (result ∷ results)

  unfoldable pub push_batch : List PushEvent → Action Store (List PushResult)
  push_batch events = do
    raise_if (length events == 0 || ltb 100 (length events))
        (validation_failed "Sync push batch size must be between 1 and 100")
    push_all events
