-- ===== src/Inventory/Methods.antt =====
-- What `adjust` keeps, `createItem` and `moveItem` keep too, if it does not speak of items.
use daja_platform.Base.{Option, none, some, List, if◌then◌else◌, Bool-cases, inl, inr, str_eq, pure}
use daja_platform.Base.Keeps.{
  Keeps, Keeps-bind, Keeps-pure, Keeps-raise, Keeps-gets, Keeps-check, Keeps-or_raise, Keeps-modify,
}
use daja_platform.Context.{Uuid, RequestContext, or_null, same_id}
use daja_platform.Inventory.Schema.{Tables, Item}
use daja_platform.Inventory.Adjust.{AdjustInput, ItemInput, adjust}
use daja_platform.Inventory.Items.{
  check_place, count_new, create_item, leave, move_from, move_item, status_or_default,
}

module _ (P : Tables → Type 0)
    (adjust-P : (ctx : RequestContext) (input : AdjustInput) → Keeps P (adjust ctx input))
    (items-P : (db : Tables) (items : List Item) → P db → P (record db { items = items })) where
  check_place-P : (org : Uuid) (loc zone bin : Option Uuid) → Keeps P (check_place org loc zone bin)
  unfolding check_place
  check_place-P org (some loc) zone_id bin =
      Keeps-bind P _ _ (Keeps-check P _) (λ _. Keeps-check P _)
  check_place-P org none none none = Keeps-pure P tt
  check_place-P org none none (some b) = Keeps-raise P _
  check_place-P org none (some z) bin = Keeps-raise P _

  count_new-P :
      (ctx : RequestContext) (id : Uuid) (input : ItemInput) (loc : Option Uuid)
      → Keeps P (count_new ctx id input loc)
  unfolding count_new
  count_new-P ctx id input none = Keeps-pure P tt
  count_new-P ctx id input (some loc) =
      elim (Bool-cases (str_eq (status_or_default input.status) "in_stock")) [
        | inl e ↦ rw e (Keeps-bind P _ _ (adjust-P ctx _) (λ _. Keeps-pure P tt))
        | inr e ↦ rw e (Keeps-pure P tt)
      ]

  pub create_item-P :
      (id : Uuid) (ctx : RequestContext) (input : ItemInput) → Keeps P (create_item id ctx input)
  unfolding create_item
  create_item-P id ctx input = Keeps-bind P _ _ (Keeps-check P _) (λ _.
      Keeps-bind P _ _
        (check_place-P ctx.organization_id (or_null input.location_id) (or_null input.zone_id)
          (or_null input.bin_id))
        (λ _. Keeps-bind P _ _ (Keeps-modify P _ (λ db p. items-P db _ p)) (λ _.
          Keeps-bind P _ _ (count_new-P ctx id input (or_null input.location_id))
            (λ _. Keeps-pure P _))))

  leave-P :
      (ctx : RequestContext) (item : Item) (from : Option Uuid) → Keeps P (leave ctx item from)
  unfolding leave
  leave-P ctx item none = Keeps-pure P tt
  leave-P ctx item (some from) = Keeps-bind P _ _ (adjust-P ctx _) (λ _. Keeps-pure P tt)

  move_from-P : (ctx : RequestContext) (item : Item) (to : Uuid) → Keeps P (move_from ctx item to)
  unfolding move_from
  move_from-P ctx item to =
      Keeps-bind P _ _ (leave-P ctx item _)
        (λ _. Keeps-bind P _ _ (adjust-P ctx _) (λ _. Keeps-modify P _ (λ db p. items-P db _ p)))

  pub move_item-P : (ctx : RequestContext) (item_id to : Uuid) → Keeps P (move_item ctx item_id to)
  unfolding move_item
  move_item-P ctx item_id to = Keeps-bind P _ _ (Keeps-check P _) (λ _.
      Keeps-bind P _ _ (Keeps-gets P _) (λ row.
        Keeps-bind P _ _ (Keeps-or_raise P row _)
          (λ item. Keeps-bind P _ _ (move ctx item) (λ _. Keeps-pure P _))))
    where
      move :
          (ctx : RequestContext) (item : Item)
          → Keeps P (
              if same_id item.current_location_id (some to) then pure tt else move_from ctx item to)
      move ctx item = elim (Bool-cases (same_id item.current_location_id (some to))) [
        | inl e ↦ rw e (Keeps-pure P tt)
        | inr e ↦ rw e (move_from-P ctx item to)
      ]
