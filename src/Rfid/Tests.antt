-- ===== src/Rfid/Tests.antt =====
-- Codes under ASCII, and requests on a store with one tag.
use daja_platform.Base.{
  ℕ, ◌-◌, ◌≡◌, refl, String, Bool, true, false, Option, none, some, List, [], ◌∷◌, ◌&&◌, ◌||◌, ◌==◌,
  leb, all, if◌then◌else◌, Result, ok, err, arith,
}
use daja_platform.Transactions.{Driver, Pool, run}
use daja_platform.Tokens.Split.{Text}
use daja_platform.Rfid.Epc.{Unicode, is_hex, is_epc, normalize_epc}
use daja_platform.Rfid.Normal.{normalize_epc_again}
use daja_platform.Rfid.Tags.{Tag, TagStore, tag_event}
use daja_platform.Rfid.History.{IsHistory, IsCounted, IsRooted, event_count}
use daja_platform.Rfid.Requests.{TagRequest, perform, run-perform-IsHistory}

abbrev capital : ℕ → ℕ
capital c = if leb 97 c && leb c 122 then c - 32 else c

abbrev capitals : Text → Text
capitals [] = []
capitals (c ∷ cs) = capital c ∷ capitals cs

abbrev ascii : Unicode
ascii = record { is_space = λ c. c == 32; upper = capitals }

-- " 0xab:cd 1234 "
abbrev read_code : Text
read_code = 32 ∷ 48 ∷ 120 ∷ 97 ∷ 98 ∷ 58 ∷ 99 ∷ 100 ∷ 32 ∷ 49 ∷ 50 ∷ 51 ∷ 52 ∷ 32 ∷ []

-- "ABCD1234"
abbrev code : Text
code = 65 ∷ 66 ∷ 67 ∷ 68 ∷ 49 ∷ 50 ∷ 51 ∷ 52 ∷ []

normalized_code : normalize_epc ascii read_code ≡ ok code
unfolding normalize_epc
normalized_code = refl

no_hex_space : (c : ℕ) → is_hex c ≡ true → (c == 32) ≡ false
no_hex_space c h = ground (arith, h)

capitals-hex : (y : Text) → all is_hex y ≡ true → capitals y ≡ y
capitals-hex [] h = refl
capitals-hex (c ∷ cs) h = ground (arith, h, capitals-hex cs (ground (arith, h)))

normalize_epc_again_example : (is_epc code ≡ true) × (normalize_epc ascii code ≡ ok code)
normalize_epc_again_example =
    normalize_epc_again ascii no_hex_space read_code code capitals-hex normalized_code

abbrev tag : Tag
tag = record {
  id = 7;
  organization_id = 1;
  epc = code;
  tid = none;
  chip_type = none;
  protocol = none;
  status = "assigned";
  inventory_item_id = some 40;
  variant_id = none;
  version = 2;
  deleted = false;
}

abbrev pool : Pool TagStore
pool = record {
  database = record {
    tags = tag ∷ [];
    tag_events = tag_event 1 7 (some 40) "assigned" ∷ [];
    items = [];
    variants = [];
  };
  released = [];
  listeners = 0;
  logged = [];
  leaked = [];
}

abbrev healthy : Driver
healthy = record {
  connect = none;
  begin_fails = none;
  fault = none;
  commit_fails = none;
  rollback_fails = none;
}

counted : IsCounted pool.database.tags pool.database.tag_events
unfolding IsCounted event_count
counted = (refl, refl, tt)

rooted : IsRooted pool.database.tags pool.database.tag_events
unfolding IsRooted
rooted = (refl, tt)

history : IsHistory pool.database
history = record { counted = counted; rooted = rooted }

abbrev unassigned : Result (Unit {0}) × Pool TagStore
unassigned = run healthy (perform ascii 1 (TagRequest.unassign 7 (some 2))) pool

written :
    unassigned.1.database.tags
    ≡ record tag { status = "unassigned"; inventory_item_id = none; version = 3 } ∷ []
unfolding run perform daja_platform.Base.◌>>=◌
written = refl

run-perform-IsHistory_example : IsHistory unassigned.1.database
run-perform-IsHistory_example =
    run-perform-IsHistory ascii 1 healthy (TagRequest.unassign 7 (some 2)) pool history
