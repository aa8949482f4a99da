-- ===== src/Sync/Append.antt =====
-- packages/database/src/sync.ts: `ensureRevisionRow` and `appendServerEvent`.
use mathlib.Core.Option
use daja_platform.Base.{
  ℕ, ◌+◌, Bool, false, Option, none, some, List, [], ◌∷◌, ◌&&◌, ◌==◌, if◌then◌else◌, find_row,
  update_rows, Action, pure, gets, modify, or_raise, ◌>>=◌, ◌>>◌,
}
use daja_platform.Context.{Uuid, RequestContext, or_else}
use daja_platform.Json.{redact_credentials}
use daja_platform.Security.Errors.{resource_not_found}
use daja_platform.Sync.Schema.{Revision, SyncEvent, Store, Draft}

abbrev pub of_organization : Uuid → Revision → Bool
of_organization org r = r.organization_id == org

-- `INSERT … VALUES ($1, 0) ON CONFLICT (organization_id) DO NOTHING`
abbrev pub ensure_row : Uuid → List Revision → List Revision
ensure_row org [] = record { organization_id = org; current = 0 } ∷ []
ensure_row org (r ∷ rs) = if of_organization org r then r ∷ rs else r ∷ ensure_row org rs

unfoldable pub ensure_revision_row : Uuid → Action Store (Unit {0})
ensure_revision_row org = modify (λ s. record s { revisions = ensure_row org s.revisions })

abbrev pub advance : Revision → Revision
advance r = record r { current = r.current + 1 }

-- `WHERE organization_id = $1 AND idempotency_key = $2`
abbrev pub has_key : Uuid → Uuid → SyncEvent → Bool
has_key org key e =
    e.organization_id == org && elim e.idempotency_key [ none ↦ false | some k ↦ k == key ]

-- `x ?? d`
abbrev pub or_default : Option ℕ → ℕ → ℕ
or_default none d = d
or_default (some n) d = n

-- The UPDATE … RETURNING, and its row.
unfoldable pub next_revision : Uuid → Action Store (Option ℕ)
next_revision org = do
  modify (λ s. record s { revisions = update_rows (of_organization org) advance s.revisions })
  gets (λ s. Option.map (λ r. r.current) (find_row (of_organization org) s.revisions))

abbrev pub drafted : RequestContext → Draft → ℕ → Uuid → SyncEvent
drafted ctx input revision id = record {
  id = id;
  revision = revision;
  organization_id = ctx.organization_id;
  location_id = or_else ctx.location_id input.location_id;
  device_id = ctx.device_id;
  user_id = some ctx.user_id;
  aggregate_type = input.aggregate_type;
  aggregate_id = input.aggregate_id;
  operation = input.operation;
  payload = redact_credentials input.payload;
  payload_version = or_default input.payload_version 1;
  base_version = input.base_version;
  idempotency_key = input.idempotency_key;
  device_sequence = or_default input.device_sequence 0;
  base_payload = Option.map redact_credentials input.base_payload;
  offline_package_id = input.offline_package_id;
  baseline_revision = input.baseline_revision;
  business_command_id = input.business_command_id;
}

-- `mapSyncEvent`: what a reader gets of a row
abbrev pub map_sync_event : SyncEvent → SyncEvent
map_sync_event row = record row {
  payload = redact_credentials row.payload;
  base_payload = Option.map redact_credentials row.base_payload;
}

unfoldable pub append_new : RequestContext → Draft → Action Store SyncEvent
unfolding ensure_revision_row next_revision
append_new ctx input = do
  ensure_revision_row ctx.organization_id
  next ← next_revision ctx.organization_id
  revision ← or_raise next (resource_not_found "organization revision")
  id ← gets (λ s. s.made)
  let event = drafted ctx input revision id
  modify (λ s. record s { events = event ∷ s.events; made = s.made + 1 })
  pure (map_sync_event event)

-- The lookup by key, if there is one.
unfoldable pub find_event : Uuid → Option Uuid → Store → Option SyncEvent
find_event org none s = none
find_event org (some key) s = find_row (has_key org key) s.events

unfoldable pub append_server_event : RequestContext → Draft → Action Store SyncEvent
unfolding find_event
append_server_event ctx input s = elim (find_event ctx.organization_id input.idempotency_key s) [
  | some event ↦ pure (map_sync_event event) s
  | none ↦ append_new ctx input s
]
