-- ===== src/Orders.antt =====
-- packages/database/src/storefront.ts: orders. Placing one, its status with the history of it, and
-- reading it. An item's price is in minor units, `none` where the text of it is no positive number;
-- payloads that are only stored are left out. A display id is never the text of an id.
pub mod Trace
pub mod Requests
pub mod Placing
mod Tests
use daja_platform.Base.{
  ℕ, suc, zero, ◌+◌, ◌*◌, String, Bool, true, false, not, Option, none, some, List, [], ◌∷◌, ◌++◌,
  ◌&&◌, ◌||◌, ◌==◌, leb, any, str_eq, if◌then◌else◌, find_row, update_rows, map, Result, ok, err,
  Action, pure, gets, modify, raise_if, or_raise, check, ◌>>=◌, ◌>>◌,
}
use daja_platform.Context.{Uuid, same_id}
use daja_platform.Security.Errors.{AppError, validation_failed, resource_not_found, other_error}

pub record Order : Type 0 where
  pub id : Uuid
  pub organization_id : Uuid
  pub display_id : ℕ
  pub customer_id : Option Uuid
  pub customer_email : Option String
  pub customer_phone : Option String
  pub subtotal_amount : ℕ
  pub discount_amount : ℕ
  pub shipping_amount : ℕ
  pub total_amount : ℕ
  pub promo_code : Option String
  pub shipping_method : String
  pub payment_method : String
  pub status : String
  pub is_read : Bool
  pub version : ℕ
  pub deleted : Bool

pub record OrderItem : Type 0 where
  pub organization_id : Uuid
  pub order_id : Uuid
  pub product_id : Option Uuid
  pub variant_id : Option Uuid
  pub name : String
  pub unit_amount : ℕ
  pub quantity : ℕ
  pub total_amount : ℕ

pub record StatusEntry : Type 0 where
  pub organization_id : Uuid
  pub order_id : Uuid
  pub status : String
  pub changed_by : Option Uuid

-- The history newest first.
pub record OrderStore : Type 0 where
  pub orders : List Order
  pub order_items : List OrderItem
  pub history : List StatusEntry

-- An id that a cart item has, which need not be a uuid.
pub data ItemId : Type 0 where
  uuid : Uuid → ItemId
  not_uuid : ItemId

pub record CartItem : Type 0 where
  pub product_id : Option ItemId
  pub id : Option ItemId
  pub variant_id : Option ItemId
  pub name : Option String
  pub price : Option ℕ
  pub qty : Option ℕ
  pub quantity : Option ℕ

pub record CheckoutInput : Type 0 where
  pub customer_id : Option Uuid
  pub email : Option String
  pub phone : Option String
  pub items : List CartItem
  pub subtotal_amount : ℕ
  pub discount_amount : ℕ
  pub shipping_amount : ℕ
  pub total_amount : ℕ
  pub promo_code : Option String
  pub shipping_method : String
  pub payment_method : String

abbrev pub has_display_id : Uuid → ℕ → Order → Bool
has_display_id org display o = o.organization_id == org && o.display_id == display

-- `createDisplayId`: twenty attempts, the `k`th of which draws `draws k`.
unfoldable pub try_display_ids : ℕ → ℕ → (ℕ → ℕ) → Uuid → List Order → Result ℕ
try_display_ids zero k draws org orders = err (validation_failed "Could not generate order id")
try_display_ids (suc left) k draws org orders =
    let rest = try_display_ids left (suc k) draws org orders in
    if not (any (has_display_id org (draws k)) orders) then ok (draws k) else rest

unfoldable pub create_display_id : (ℕ → ℕ) → Uuid → List Order → Result ℕ
unfolding try_display_ids
create_display_id draws org orders = try_display_ids 20 0 draws org orders

abbrev pub first_status : String
first_status = "Na čekanju"

abbrev pub new_order : Uuid → Uuid → ℕ → CheckoutInput → Order
new_order id org display input = record {
  id = id;
  organization_id = org;
  display_id = display;
  customer_id = input.customer_id;
  customer_email = input.email;
  customer_phone = input.phone;
  subtotal_amount = input.subtotal_amount;
  discount_amount = input.discount_amount;
  shipping_amount = input.shipping_amount;
  total_amount = input.total_amount;
  promo_code = input.promo_code;
  shipping_method = input.shipping_method;
  payment_method = input.payment_method;
  status = first_status;
  is_read = false;
  version = 1;
  deleted = false;
}

-- The primary key, and the unique index on the display ids of live orders.
abbrev pub is_clash : Order → Order → Bool
is_clash o p =
    o.id == p.id
    || o.organization_id == p.organization_id
      && o.display_id == p.display_id
      && not o.deleted
      && not p.deleted

abbrev pub amount_or_zero : Option ℕ → ℕ
amount_or_zero none = 0
amount_or_zero (some n) = n

-- `item.qty ?? item.quantity ?? 1`
abbrev pub quantity_of : CartItem → ℕ
quantity_of i = elim i.qty [ some n ↦ n | none ↦ elim i.quantity [ some n ↦ n | none ↦ 1 ] ]

abbrev pub name_or : Option String → String
name_or none = "Proizvod"
name_or (some n) = n

abbrev pub uuid_or_null : Option ItemId → Option Uuid
uuid_or_null none = none
uuid_or_null (some not_uuid) = none
uuid_or_null (some (uuid id)) = some id

-- `item.productId ?? item.id`, where an id that is no uuid is still taken first.
abbrev pub first_id : Option ItemId → Option ItemId → Option Uuid
first_id (some a) b = uuid_or_null (some a)
first_id none b = uuid_or_null b

abbrev pub order_item : Uuid → Uuid → CartItem → OrderItem
order_item org order i = record {
  organization_id = org;
  order_id = order;
  product_id = first_id i.product_id i.id;
  variant_id = uuid_or_null i.variant_id;
  name = name_or i.name;
  unit_amount = amount_or_zero i.price;
  quantity = quantity_of i;
  total_amount = amount_or_zero i.price * quantity_of i;
}

-- A row of `order_items`: amounts have the range of an integer, and the quantity is positive.
abbrev pub is_storable : OrderItem → Bool
is_storable i =
    leb i.unit_amount 2147483647
    && leb i.total_amount 2147483647
    && leb 1 i.quantity
    && leb i.quantity 2147483647

unfoldable pub insert_items : List OrderItem → Action OrderStore (Unit {0})
insert_items [] = pure tt
insert_items (i ∷ is) =
    raise_if (not (is_storable i)) (other_error "22003")
    >> modify (λ db. record db { order_items = i ∷ db.order_items })
    >> insert_items is

abbrev pub log_status : StatusEntry → Action OrderStore (Unit {0})
log_status e = modify λ db. record db { history = e ∷ db.history }

-- INSERT INTO orders
unfoldable pub insert_order : Order → Action OrderStore (Unit {0})
insert_order o = do
  orders ← gets λ db. db.orders
  raise_if (any (is_clash o) orders) (other_error "23505")
  modify (λ db. record db { orders = o ∷ db.orders })

unfoldable pub store_order : Order → List CartItem → Action OrderStore Order
unfolding insert_order insert_items
store_order o items = do
  insert_order o
  insert_items (map (order_item o.organization_id o.id) items)
  log_status record {
    organization_id = o.organization_id;
    order_id = o.id;
    status = o.status;
    changed_by = none;
  }
  pure o

unfoldable pub create_order : (ℕ → ℕ) → Uuid → Uuid → CheckoutInput → Action OrderStore Order
unfolding create_display_id store_order
create_order draws id org input = do
  display ← check λ db. create_display_id draws org db.orders
  store_order (new_order id org display input) input.items

-- The text that names an order.
pub data OrderName : Type 0 where
  by_id : Uuid → OrderName
  by_display_id : ℕ → OrderName

abbrev pub has_name : OrderName → Order → Bool
has_name (by_id id) o = o.id == id
has_name (by_display_id d) o = o.display_id == d

abbrev pub is_named : Uuid → OrderName → Order → Bool
is_named org name o = o.organization_id == org && has_name name o && not o.deleted

abbrev pub missing : AppError
missing = resource_not_found "storefront resource"

-- The UPDATE, and the entry in the history.
unfoldable pub write_status :
    Uuid → OrderName → String → Option Uuid → Uuid → Action OrderStore (Unit {0})
write_status org name status user order = modify λ db. record db {
  orders =
      update_rows (is_named org name) (λ o. record o { status = status; version = o.version + 1 })
        db.orders;
  history =
      record { organization_id = org; order_id = order; status = status; changed_by = user }
      ∷ db.history;
}

-- Whether the status has changed.
unfoldable pub update_order_status :
    Uuid → OrderName → String → Option Uuid → Action OrderStore Bool
unfolding write_status
update_order_status org name status user = do
  found ← gets λ db. find_row (is_named org name) db.orders
  previous ← or_raise found missing
  if str_eq previous.status status
      then pure false
      else write_status org name status user previous.id >> pure true

unfoldable pub mark_order_read : Uuid → OrderName → Action OrderStore (Unit {0})
mark_order_read org name = do
  found ← gets λ db. find_row (is_named org name) db.orders
  or_raise found missing
  modify λ db. record db {
    orders = update_rows (is_named org name) (λ o. record o { is_read = true }) db.orders;
  }

-- `$3::uuid IS NULL OR customer_id = $3`
abbrev pub is_of_customer : Option Uuid → Order → Bool
is_of_customer none o = true
is_of_customer (some c) o = same_id o.customer_id (some c)

unfoldable pub get_order : Uuid → OrderName → Option Uuid → OrderStore → Result Order
get_order org name customer db =
    elim (find_row (λ o. is_named org name o && is_of_customer customer o) db.orders) [
      | none ↦ err missing
      | some o ↦ ok o
    ]
