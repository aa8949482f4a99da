-- ===== src/Sync/Tests.antt =====
-- Pushes and pulls of a small log, and the theorems at these inputs.
use daja_platform.Base.{
  ◌≡◌, refl, find_row, String, true, not, none, some, List, [], ◌∷◌, ◌++◌, map, take, is_empty, ok,
  err, Action, pure, arith, ◌>>=◌,
}
use daja_platform.Base.Keeps.{Keeps, Keeps-pure}
use daja_platform.Context.{Uuid, RequestContext}
use daja_platform.Json.{null, text, get_field, end, field}
use daja_platform.Security.Errors.{tenant_access_denied}
use daja_platform.Transactions.{Driver, Pool, run}
use daja_platform.Sync.Schema.{Device, Store, PushEvent, Draft}
use daja_platform.Sync.Append.{append_server_event, map_sync_event, append_new}
use daja_platform.Sync.Push.{
  PushResult, applied, duplicate, push_one, push_all, push_batch, push_found, push_new,
  detect_conflict, command_overrides, detect_from, draft_of,
}
use daja_platform.Sync.Log.{current_of}
use daja_platform.Sync.Sequence.{IsLog}
use daja_platform.Sync.Delivery.{run-push_batch-IsLog}
use daja_platform.Sync.Repush.{push_one_again}
use daja_platform.Sync.Pull.{
  Page, pull, restrict, sync_locations, rows_after, log_of, last_revision, selects,
}
use daja_platform.Sync.Paging.{pull_pages}
use daja_platform.Sync.Devices.{
  Registration, has_device_key, new_device, upsert_device, register_device, register_device_returns,
  IsInUse,
}
use daja_platform.Sync.Conflicts.{resolve, reject, resolve_conflict, resolve_conflict_once}

abbrev worker : RequestContext
worker = record {
  organization_id = 1;
  user_id = 2;
  device_id = some 3;
  location_id = none;
  permissions = [];
  scoped_grants = [];
  is_owner = true;
}

abbrev empty : Store
empty = record {
  revisions = [];
  events = [];
  conflicts = [];
  aggregates = [];
  devices = [];
  made = 0;
}

abbrev renamed : Uuid → PushEvent
renamed key = record {
  event_id = 100;
  idempotency_key = key;
  aggregate_type = "product";
  aggregate_id = 50;
  operation = "update";
  base_version = none;
  payload_version = 1;
  payload = field "password" (text "s") (field "name" (text "Watch") end);
  location_id = none;
  device_sequence = some 1;
  base_payload = none;
  offline_package_id = none;
  baseline_revision = none;
  business_command_id = none;
}

-- A projector that changes nothing.
abbrev unchanged : PushEvent → Action Store PushEvent
unchanged event = pure event

unchanged-IsLog : (event : PushEvent) → Keeps IsLog (unchanged event)
unchanged-IsLog event = Keeps-pure IsLog _

unchanged_key :
    (e : PushEvent) (t : Store) (projected : PushEvent)
    → (unchanged e t).0 ≡ ok projected
    → projected.idempotency_key ≡ e.idempotency_key
unchanged_key e t projected h = ground (arith, h)

empty-IsLog : IsLog empty
empty-IsLog = record { within = tt; growing = tt; keyed = tt }

abbrev healthy : Driver
healthy = record {
  connect = none;
  begin_fails = none;
  fault = none;
  commit_fails = none;
  rollback_fails = none;
}

abbrev pool : Pool Store
pool = record { database = empty; released = []; listeners = 0; logged = []; leaked = [] }

run-push_batch-IsLog_example :
    IsLog (run healthy (push_batch unchanged worker (renamed 7 ∷ renamed 8 ∷ [])) pool).1.database
run-push_batch-IsLog_example =
    run-push_batch-IsLog unchanged worker unchanged-IsLog healthy (renamed 7 ∷ renamed 8 ∷ []) pool
      empty-IsLog

pushed :
    (push_one unchanged worker (renamed 7) empty).0
    ≡ ok (record { event_id = 100; status = applied 1 })
unfolding ◌>>=◌ push_one push_found push_new detect_conflict command_overrides get_field detect_from
    append_server_event draft_of append_new
pushed = refl

push_one_again_example :
    push_one unchanged worker (renamed 7) (push_one unchanged worker (renamed 7) empty).1 ≡ (
      ok (record { event_id = 100; status = duplicate 1 }),
      (push_one unchanged worker (renamed 7) empty).1,
    )
push_one_again_example = push_one_again unchanged worker unchanged_key (renamed 7) empty 1 pushed

both_pushed :
    (push_all unchanged worker (renamed 7 ∷ renamed 7 ∷ []) empty).0
    ≡ ok (
        record { event_id = 100; status = applied 1 }
        ∷ record { event_id = 100; status = duplicate 1 }
        ∷ [])
unfolding push_all ◌>>=◌ push_one push_found push_new detect_conflict command_overrides get_field
    detect_from append_server_event draft_of append_new
both_pushed = refl

abbrev answers : List PushResult
answers =
    record { event_id = 100; status = applied 1 }
    ∷ record { event_id = 100; status = duplicate 1 }
    ∷ []

abbrev draft : Draft
draft = record {
  aggregate_type = "product";
  aggregate_id = 50;
  operation = "update";
  payload = null;
  payload_version = none;
  base_version = none;
  idempotency_key = some 7;
  location_id = none;
  device_sequence = none;
  base_payload = none;
  offline_package_id = none;
  baseline_revision = none;
  business_command_id = none;
}

abbrev full : Store
full = (push_all unchanged worker (renamed 7 ∷ renamed 8 ∷ []) empty).1

abbrev id_text : Uuid → String
id_text id = "an id"

abbrev first_page : Page
first_page = record {
  events = map map_sync_event (take 1 (log_of 1 full));
  next_revision = 1;
  has_more = true;
}

full-IsLog : IsLog full
unfolding push_all ◌>>=◌ push_one push_found push_new detect_conflict command_overrides get_field
    detect_from append_server_event draft_of append_new current_of
full-IsLog = record {
  within = (omega arith, (omega arith, tt));
  growing = ((λ same. omega arith, tt), (tt, tt));
  keyed = ((refl, tt), (tt, tt));
}

first_pull : pull id_text worker 0 1 full ≡ ok first_page
unfolding push_all ◌>>=◌ push_one push_found push_new detect_conflict command_overrides get_field
    detect_from append_server_event draft_of append_new pull log_of rows_after last_revision
    restrict sync_locations selects
first_pull = refl

pull_pages_example :
    (first_page.events
      ≡ restrict id_text
          (sync_locations worker)
          (map map_sync_event (take 1 (rows_after worker 0 (log_of 1 full)))))
    × (rows_after worker 0 (log_of 1 full)
        ≡ take 1 (rows_after worker 0 (log_of 1 full)) ++ rows_after worker 1 (log_of 1 full))
    × (true ≡ not (is_empty (rows_after worker 1 (log_of 1 full))))
pull_pages_example = pull_pages id_text worker 0 1 full first_page full-IsLog first_pull

resolve_conflict_once_example :
    (resolve_conflict
      (record worker { user_id = 7 })
      9
      reject
      null
      "late"
      (resolve_conflict worker 9 resolve null "kept" empty).1).0
    ≡ err tenant_access_denied
resolve_conflict_once_example =
    resolve_conflict_once worker (record worker { user_id = 7 }) 9 resolve reject null null "kept"
      "late" empty refl

abbrev scanner : Registration
scanner = record {
  device_key = 40;
  display_name = "Scanner";
  device_type = "bridge";
  location_id = none;
}

abbrev scanner_device : Device
scanner_device = new_device 0 worker scanner

registered : (register_device (λ d. true) 5 worker scanner empty).0 ≡ ok scanner_device
unfolding register_device upsert_device ◌>>=◌
registered = refl

register_device_returns_example :
    (find_row (has_device_key 1 40) (register_device (λ d. true) 5 worker scanner empty).1.devices
      ≡ some scanner_device)
    × IsInUse 1 40 2 1 scanner_device
register_device_returns_example =
    register_device_returns (λ d. true) 5 worker scanner empty scanner_device registered
