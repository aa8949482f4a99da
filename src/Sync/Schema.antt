-- ===== src/Sync/Schema.antt =====
-- The tables that packages/database/src/sync.ts reads and writes. A key or an id is a number; the
-- columns for the time stamps, for the request's own ids and for a conflict's copy of the server's
-- row are left out.
use daja_platform.Base.{ℕ, String, Bool, Option, List}
use daja_platform.Context.{Uuid}
use daja_platform.Json.{Json, Fields}

-- organization_revisions
pub record Revision : Type 0 where
  pub organization_id : Uuid
  pub current : ℕ

-- server_sync_events, and `SyncEventRecord`
pub record SyncEvent : Type 0 where
  pub id : Uuid
  pub revision : ℕ
  pub organization_id : Uuid
  pub location_id : Option Uuid
  pub device_id : Option Uuid
  pub user_id : Option Uuid
  pub aggregate_type : String
  pub aggregate_id : Uuid
  pub operation : String
  pub payload : Json
  pub payload_version : ℕ
  pub base_version : Option ℕ
  pub idempotency_key : Option Uuid
  pub device_sequence : ℕ
  pub base_payload : Option Json
  pub offline_package_id : Option Uuid
  pub baseline_revision : Option ℕ
  pub business_command_id : Option Uuid

pub data ConflictStatus : Type 0 where
  unresolved resolved rejected : ConflictStatus

-- sync_conflicts
pub record Conflict : Type 0 where
  pub id : Uuid
  pub organization_id : Uuid
  pub device_id : Option Uuid
  pub user_id : Uuid
  pub aggregate_type : String
  pub aggregate_id : Uuid
  pub operation : String
  pub base_version : Option ℕ
  pub server_version : ℕ
  pub client_payload : Json
  pub status : ConflictStatus
  pub reason : String
  pub resolution : Option Json
  pub resolved_by : Option Uuid

-- The four tables with versions that a push is compared with.
pub data VersionedTable : Type 0 where
  products product_variants rfid_tags inventory_items : VersionedTable

pub record Aggregate : Type 0 where
  pub organization_id : Uuid
  pub table : VersionedTable
  pub id : Uuid
  pub version : ℕ

pub record Device : Type 0 where
  pub id : Uuid
  pub organization_id : Uuid
  pub device_key : Uuid
  pub user_id : Uuid
  pub location_id : Option Uuid
  pub display_name : String
  pub device_type : String
  pub active : Bool
  pub revoked : Bool
  pub deleted : Bool
  pub seen : Option ℕ
  pub version : ℕ

-- Events and conflicts newest first. `made` counts the ids that the database has made.
pub record Store : Type 0 where
  pub revisions : List Revision
  pub events : List SyncEvent
  pub conflicts : List Conflict
  pub aggregates : List Aggregate
  pub devices : List Device
  pub made : ℕ

-- `SyncPushEvent`
pub record PushEvent : Type 0 where
  pub event_id : Uuid
  pub idempotency_key : Uuid
  pub aggregate_type : String
  pub aggregate_id : Uuid
  pub operation : String
  pub base_version : Option ℕ
  pub payload_version : ℕ
  pub payload : Fields
  pub location_id : Option Uuid
  pub device_sequence : Option ℕ
  pub base_payload : Option Json
  pub offline_package_id : Option Uuid
  pub baseline_revision : Option ℕ
  pub business_command_id : Option Uuid

-- The input of `appendServerEvent`; an absent or empty key is `none`.
pub record Draft : Type 0 where
  pub aggregate_type : String
  pub aggregate_id : Uuid
  pub operation : String
  pub payload : Json
  pub payload_version : Option ℕ
  pub base_version : Option ℕ
  pub idempotency_key : Option Uuid
  pub location_id : Option Uuid
  pub device_sequence : Option ℕ
  pub base_payload : Option Json
  pub offline_package_id : Option Uuid
  pub baseline_revision : Option ℕ
  pub business_command_id : Option Uuid
