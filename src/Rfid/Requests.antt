-- ===== src/Rfid/Requests.antt =====
-- The requests on tags, each in a transaction, and that they keep the history.
use mathlib.Core.Path.{subst}
use daja_platform.Base.{
  ℕ, ◌≡◌, refl, sym, String, Option, none, some, find_row, ok, Action, arith, pure, ◌>>=◌,
  Option-cases, inl, inr,
}
use daja_platform.Base.Keeps.{Keeps, Keeps-bind, Keeps-pure, Keeps-raise_if, Returns-of}
use daja_platform.Context.{Uuid}
use daja_platform.Transactions.{Driver, Pool, run}
use daja_platform.Transactions.Atomicity.{run_keeps}
use daja_platform.Rfid.Epc.{Unicode}
use daja_platform.Inventory.Schema.{Item, is_live_item}
use daja_platform.Rfid.Tags.{
  Tag, TagStore, TagInput, is_live_tag, write_tag, tag_event, create_tag, assign_tag, unassign_tag,
  update_status, change_status,
}
use daja_platform.Rfid.History.{IsHistory, write_tag-IsHistory, create_tag-IsHistory}

-- Each write of a tag has found it, under the version that was asked for.
unassign_tag_returns :
    (org id : Uuid) (expected : Option ℕ) (db : TagStore)
    → (unassign_tag org id expected db).0 ≡ ok tt
    → (t : Tag) × (find_row (is_live_tag org id) db.tags ≡ some t)
      × ((unassign_tag org id expected db).1
          ≡ (write_tag org id
              (λ t. record t { inventory_item_id = none; variant_id = none; status = "unassigned" })
              (tag_event org id t.inventory_item_id "unassigned")
              db).1)
unfolding unassign_tag ◌>>=◌
unassign_tag_returns org id expected db h =
    elim (Option-cases (find_row (is_live_tag org id) db.tags)) [
      | inl n ↦ ground (arith, n, h)
      | inr (t, f) ↦ (t, f, ground (arith, f, h))
    ]

change_status_returns :
    (org id : Uuid) (status : String) (expected : Option ℕ) (db : TagStore)
    → (change_status org id status expected db).0 ≡ ok tt
    → (t : Tag) × (find_row (is_live_tag org id) db.tags ≡ some t)
      × ((change_status org id status expected db).1
          ≡ (write_tag org id
              (λ t. record t { status = status })
              (tag_event org id t.inventory_item_id "status_changed")
              db).1)
unfolding change_status ◌>>=◌
change_status_returns org id status expected db h =
    elim (Option-cases (find_row (is_live_tag org id) db.tags)) [
      | inl n ↦ ground (arith, n, h)
      | inr (t, f) ↦ (t, f, ground (arith, f, h))
    ]

assign_tag_returns :
    (org id item_id : Uuid) (expected : Option ℕ) (db : TagStore)
    → (assign_tag org id item_id expected db).0 ≡ ok tt
    → (t : Tag) × (item : Item) × (find_row (is_live_tag org id) db.tags ≡ some t)
      × ((assign_tag org id item_id expected db).1
          ≡ (write_tag org id
              (λ t. record t {
                inventory_item_id = some item_id;
                variant_id = none;
                status = item.status;
              })
              (tag_event org id (some item_id) "assigned")
              db).1)
unfolding assign_tag ◌>>=◌
assign_tag_returns org id item_id expected db h =
    elim (Option-cases (find_row (is_live_tag org id) db.tags)) [
      | inl n ↦ ground (arith, n, h)
      | inr (t, f) ↦ elim (Option-cases (find_row (is_live_item org item_id) db.items)) [
        | inl n ↦ ground (arith, f, n, h)
        | inr (item, g) ↦ (t, item, f, ground (arith, f, g, h))
      ]
    ]

assign_tag-IsHistory :
    (org id item_id : Uuid) (expected : Option ℕ)
    → Keeps IsHistory (assign_tag org id item_id expected)
assign_tag-IsHistory org id item_id expected = record {
  at = λ db k.
      Returns-of IsHistory (assign_tag org id item_id expected db).0
        (assign_tag org id item_id expected db).1
        λ a h.
          let (t, item, f, e) = assign_tag_returns org id item_id expected db h in
          subst IsHistory (sym e)
            (write_tag-IsHistory org id _ (some item_id) "assigned" t db (λ x. refl) f k);
}

unassign_tag-IsHistory :
    (org id : Uuid) (expected : Option ℕ) → Keeps IsHistory (unassign_tag org id expected)
unassign_tag-IsHistory org id expected = record {
  at = λ db k.
      Returns-of IsHistory (unassign_tag org id expected db).0 (unassign_tag org id expected db).1
        λ a h.
          let (t, f, e) = unassign_tag_returns org id expected db h in
          subst IsHistory (sym e)
            (write_tag-IsHistory org id _ t.inventory_item_id "unassigned" t db (λ x. refl) f k);
}

change_status-IsHistory :
    (org id : Uuid) (status : String) (expected : Option ℕ)
    → Keeps IsHistory (change_status org id status expected)
change_status-IsHistory org id status expected = record {
  at = λ db k.
      Returns-of IsHistory (change_status org id status expected db).0
        (change_status org id status expected db).1
        λ a h.
          let (t, f, e) = change_status_returns org id status expected db h in
          subst IsHistory (sym e) (
            write_tag-IsHistory org id _ t.inventory_item_id "status_changed" t db (λ x. refl) f k);
}

update_status-IsHistory :
    (org id : Uuid) (status : String) (expected : Option ℕ)
    → Keeps IsHistory (update_status org id status expected)
unfolding update_status
update_status-IsHistory org id status expected =
    Keeps-bind IsHistory _ _ (Keeps-raise_if IsHistory _ _)
      λ _. change_status-IsHistory org id status expected

pub data TagRequest : Type 0 where
  create : Uuid → TagInput → TagRequest
  assign : Uuid → Uuid → Option ℕ → TagRequest
  unassign : Uuid → Option ℕ → TagRequest
  set_status : Uuid → String → Option ℕ → TagRequest

unfoldable pub perform : Unicode → Uuid → TagRequest → Action TagStore (Unit {0})
unfolding create_tag assign_tag unassign_tag update_status
perform u org (create id input) = create_tag u id org input >>= λ _. pure tt
perform u org (assign id item expected) = assign_tag org id item expected
perform u org (unassign id expected) = unassign_tag org id expected
perform u org (set_status id status expected) = update_status org id status expected

perform-IsHistory : (u : Unicode) (org : Uuid) (r : TagRequest) → Keeps IsHistory (perform u org r)
unfolding perform
perform-IsHistory u org (create id input) =
    Keeps-bind IsHistory _ _ (create_tag-IsHistory u id org input) λ _. Keeps-pure IsHistory tt
perform-IsHistory u org (assign id item expected) = assign_tag-IsHistory org id item expected
perform-IsHistory u org (unassign id expected) = unassign_tag-IsHistory org id expected
perform-IsHistory u org (set_status id status expected) =
    update_status-IsHistory org id status expected

-- The version of every tag is one more than the number of its events, no id is given twice, and
-- every event is of a tag: whatever is requested of the tags, in a transaction of any driver, keeps
-- this of the database, answered or not.
pub run-perform-IsHistory :
    (u : Unicode) (org : Uuid) (d : Driver) (r : TagRequest) (p : Pool TagStore)
    → IsHistory p.database
    → IsHistory (run d (perform u org r) p).1.database
run-perform-IsHistory u org d r p =
    run_keeps IsHistory d (perform u org r) p (perform-IsHistory u org r)
