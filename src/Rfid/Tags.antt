-- ===== src/Rfid/Tags.antt =====
-- packages/database/src/rfid.ts: `class RfidRepository`.
use daja_platform.Base.{
  ℕ, ◌+◌, String, Bool, false, not, Option, none, some, List, [], ◌∷◌, ◌&&◌, ◌||◌, ◌==◌, any,
  str_eq, take, where_rows, find_row, update_rows, Result, ok, err, Action, pure, gets, modify,
  raise_if, or_raise, check, guard, and_then, ◌>>=◌, ◌>>◌,
}
use daja_platform.Context.{Uuid, same_id}
use daja_platform.Security.Errors.{
  tenant_access_denied, resource_conflict, resource_not_found, validation_failed, version_conflict,
}
use daja_platform.Inventory.Schema.{Item, Owned, is_live, is_live_item}
use daja_platform.Tokens.Split.{Text, same_text}
use daja_platform.Rfid.Epc.{Unicode, normalize_epc}

pub record Tag : Type 0 where
  pub id : Uuid
  pub organization_id : Uuid
  pub epc : Text
  pub tid : Option Text
  pub chip_type : Option String
  pub protocol : Option String
  pub status : String
  pub inventory_item_id : Option Uuid
  pub variant_id : Option Uuid
  pub version : ℕ
  pub deleted : Bool

pub record TagEvent : Type 0 where
  pub organization_id : Uuid
  pub tag_id : Uuid
  pub inventory_item_id : Option Uuid
  pub event_type : String

-- Events newest first.
pub record TagStore : Type 0 where
  pub tags : List Tag
  pub tag_events : List TagEvent
  pub items : List Item
  pub variants : List Owned

pub record TagInput : Type 0 where
  pub epc : Text
  pub tid : Option Text
  pub chip_type : Option String
  pub protocol : Option String
  pub variant_id : Option Uuid

abbrev pub is_tag : Uuid → Uuid → Tag → Bool
is_tag org id t = t.organization_id == org && t.id == id

abbrev pub is_live_tag : Uuid → Uuid → Tag → Bool
is_live_tag org id t = is_tag org id t && not t.deleted

unfoldable pub lock_tag : Uuid → Uuid → Action TagStore Tag
lock_tag org id = do
  found ← gets λ db. find_row (is_live_tag org id) db.tags
  or_raise found tenant_access_denied

unfoldable pub lock_inventory_item : Uuid → Uuid → Action TagStore Item
lock_inventory_item org id = do
  found ← gets λ db. find_row (is_live_item org id) db.items
  or_raise found tenant_access_denied

unfoldable pub assert_tag_variant : Uuid → Option Uuid → TagStore → Result (Unit {0})
assert_tag_variant org none db = ok tt
assert_tag_variant org (some id) db =
    guard (any (is_live org id) db.variants)
      (validation_failed "Variant does not belong to organization")

unfoldable pub normalize_tid : Unicode → Option Text → Result (Option Text)
unfolding normalize_epc
normalize_tid u none = ok none
normalize_tid u (some tid) = and_then (normalize_epc u tid) λ t. ok (some t)

abbrev pub status_of : Option Uuid → String
status_of none = "unassigned"
status_of (some v) = "assigned"

abbrev pub new_tag : Uuid → Uuid → Text → Option Text → TagInput → Tag
new_tag id org epc tid input = record {
  id = id;
  organization_id = org;
  epc = epc;
  tid = tid;
  chip_type = input.chip_type;
  protocol = input.protocol;
  status = status_of input.variant_id;
  inventory_item_id = none;
  variant_id = input.variant_id;
  version = 1;
  deleted = false;
}

-- The primary key, and the unique index on the codes of live tags.
abbrev pub is_taken : Uuid → Uuid → Text → Tag → Bool
is_taken id org epc t =
    t.id == id || t.organization_id == org && same_text t.epc epc && not t.deleted

unfoldable pub insert_tag : Tag → Action TagStore Tag
insert_tag t = do
  tags ← gets λ db. db.tags
  raise_if (any (is_taken t.id t.organization_id t.epc) tags)
      (resource_conflict "Active EPC already exists")
  modify (λ db. record db { tags = t ∷ db.tags })
  pure t

-- An empty `tid` counts as none.
unfoldable pub create_tag : Unicode → Uuid → Uuid → TagInput → Action TagStore Tag
unfolding normalize_tid assert_tag_variant insert_tag
create_tag u id org input = do
  epc ← check λ _. normalize_epc u input.epc
  check (assert_tag_variant org input.variant_id)
  tid ← check λ _. normalize_tid u input.tid
  insert_tag (new_tag id org epc tid input)

-- `input.expectedVersion !== undefined && Number(tag.version) !== input.expectedVersion`
abbrev pub is_stale : Option ℕ → Tag → Bool
is_stale none t = false
is_stale (some v) t = not (t.version == v)

-- The UPDATE … SET version = version + 1, and the event.
unfoldable pub write_tag : Uuid → Uuid → (Tag → Tag) → TagEvent → Action TagStore (Unit {0})
write_tag org id f event = modify λ db. record db {
  tags = update_rows (is_tag org id) (λ t. record (f t) { version = t.version + 1 }) db.tags;
  tag_events = event ∷ db.tag_events;
}

abbrev pub tag_event : Uuid → Uuid → Option Uuid → String → TagEvent
tag_event org id item kind = record {
  organization_id = org;
  tag_id = id;
  inventory_item_id = item;
  event_type = kind;
}

-- `a && a !== b`
abbrev pub is_other : Option Uuid → Uuid → Bool
is_other none b = false
is_other (some a) b = not (a == b)

abbrev pub is_empty_tag : Tag → Bool
is_empty_tag t = same_id t.inventory_item_id none && same_id t.variant_id none

unfoldable pub assign_tag : Uuid → Uuid → Uuid → Option ℕ → Action TagStore (Unit {0})
unfolding lock_tag lock_inventory_item write_tag
assign_tag org id item_id expected = do
  tag ← lock_tag org id
  item ← lock_inventory_item org item_id
  raise_if (is_stale expected tag) version_conflict
  raise_if (is_other tag.inventory_item_id item_id)
      (resource_conflict "RFID tag is already assigned to a different inventory item")
  raise_if (is_other tag.variant_id item.variant_id)
      (resource_conflict "RFID tag variant contradicts inventory item variant")
  write_tag org id
      (λ t. record t { inventory_item_id = some item_id; variant_id = none; status = item.status })
      (tag_event org id (some item_id) "assigned")

unfoldable pub unassign_tag : Uuid → Uuid → Option ℕ → Action TagStore (Unit {0})
unfolding lock_tag write_tag
unassign_tag org id expected = do
  tag ← lock_tag org id
  raise_if (is_stale expected tag) version_conflict
  raise_if (is_empty_tag tag) (resource_conflict "RFID tag is already unassigned")
  write_tag org id
      (λ t. record t { inventory_item_id = none; variant_id = none; status = "unassigned" })
      (tag_event org id tag.inventory_item_id "unassigned")

abbrev pub statuses : List String
statuses =
    "unassigned" ∷ "assigned" ∷ "in_stock" ∷ "reserved" ∷ "sold" ∷ "returned" ∷ "transferred"
    ∷ "lost" ∷ "damaged" ∷ "retired" ∷ []

-- `updateStatus` once the status is known to be allowed.
unfoldable pub change_status : Uuid → Uuid → String → Option ℕ → Action TagStore (Unit {0})
unfolding lock_tag write_tag
change_status org id status expected = do
  tag ← lock_tag org id
  raise_if (is_stale expected tag) version_conflict
  write_tag org id (λ t. record t { status = status })
      (tag_event org id tag.inventory_item_id "status_changed")

unfoldable pub update_status : Uuid → Uuid → String → Option ℕ → Action TagStore (Unit {0})
unfolding change_status
update_status org id status expected =
    raise_if (not (any (str_eq status) statuses)) (validation_failed "Invalid RFID tag status")
    >> change_status org id status expected

-- The reads.
unfoldable pub get_tag_by_id : Uuid → Uuid → TagStore → Result Tag
get_tag_by_id org id db = elim (find_row (is_live_tag org id) db.tags) [
  | none ↦ err tenant_access_denied
  | some t ↦ ok t
]

unfoldable pub get_tag_by_epc : Unicode → Uuid → Text → TagStore → Result Tag
unfolding normalize_epc
get_tag_by_epc u org raw db = and_then (normalize_epc u raw) λ epc.
    elim (find_row (λ t. t.organization_id == org && same_text t.epc epc && not t.deleted)
      db.tags) [ none ↦ err (resource_not_found "rfid tag") | some t ↦ ok t ]

unfoldable pub list_events : Uuid → Uuid → TagStore → Result (List TagEvent)
unfolding get_tag_by_id
list_events org id db =
    and_then (get_tag_by_id org id db) λ _.
      ok (take 200 (where_rows (λ e. e.organization_id == org && e.tag_id == id) db.tag_events))
