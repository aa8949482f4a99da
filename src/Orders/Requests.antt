-- ===== src/Orders/Requests.antt =====
-- The requests on orders, each in a transaction, and that they keep the history.
use mathlib.Core.Path.{subst}
use daja_platform.Base.{
  ◌≡◌, refl, sym, ap, ◌∙◌, String, Bool, true, Option, some, List, [], ◌∷◌, ◌==◌, str_eq, find_row,
  update_rows, ok, arith, ◌>>=◌, Bool-cases, Option-cases, inl, inr, ◌⊎◌,
}
use daja_platform.Base.Keeps.{Keeps, Returns-of}
use daja_platform.Base.Rows.{any-update_rows}
use daja_platform.Context.{Uuid}
use daja_platform.Orders.{
  Order, OrderStore, StatusEntry, OrderName, is_clash, is_named, write_status, update_order_status,
  mark_order_read,
}
use daja_platform.Orders.Trace.{
  IsHistory, IsTraced, IsAttached, has_order, set_status, IsTraced-write,
}

found-has_order :
    (f : Order → Bool) (os : List Order) (o : Order)
    → find_row f os ≡ some o
    → has_order o.id os ≡ true
found-has_order f [] o h = cc
found-has_order f (x ∷ os) o h = elim (Bool-cases (f x)) [
  | inl t ↦
      let first : x ≡ o = ground (arith, t, h) in
      subst (λ y. has_order y.id (x ∷ os) ≡ true) first (ground arith)
  | inr n ↦ ground (arith, found-has_order f os o (ground (arith, n, h)))
]

IsAttached-update :
    (c : Order → Bool) (g : Order → Order)
    → ((o : Order) → (g o).id ≡ o.id)
    → (os : List Order) (h : List StatusEntry) → IsAttached os h
    → IsAttached (update_rows c g os) h
unfolding IsAttached
IsAttached-update c g same os [] k = tt
IsAttached-update c g same os (e ∷ h) k = (
  any-update_rows (λ o. o.id == e.order_id) c g (λ o. ap (λ x. x == e.order_id) (same o)) os ∙ k.0,
  IsAttached-update c g same os h k.1,
)

write_status-IsHistory :
    (org : Uuid) (name : OrderName) (status : String) (user : Option Uuid) (found : Order)
    (db : OrderStore)
    → find_row (is_named org name) db.orders ≡ some found
    → IsHistory db
    → IsHistory (write_status org name status user found.id db).1
unfolding write_status IsAttached
write_status-IsHistory org name status user found db f k = record {
  traced = IsTraced-write org name status db.orders db.history _ found f refl refl k.traced;
  attached = (
    any-update_rows (λ o. o.id == found.id) (is_named org name) (set_status status) (λ o. refl)
          db.orders
        ∙ found-has_order (is_named org name) db.orders found f,
    IsAttached-update (is_named org name) (set_status status) (λ o. refl) db.orders db.history
        k.attached,
  );
}

-- A status that is set writes nothing, or it writes the order that was found.
update_order_status-cases :
    (org : Uuid) (name : OrderName) (status : String) (user : Option Uuid) (db : OrderStore)
    → ((update_order_status org name status user db).1 ≡ db)
      ⊎ ((o : Order) × (find_row (is_named org name) db.orders ≡ some o)
          × ((update_order_status org name status user db).1
              ≡ (write_status org name status user o.id db).1))
unfolding update_order_status ◌>>=◌
update_order_status-cases org name status user db =
    elim (Option-cases (find_row (is_named org name) db.orders)) [
      | inl n ↦ inl (ground (arith, n))
      | inr (o, f) ↦ elim (Bool-cases (str_eq o.status status)) [
        | inl t ↦ inl (ground (arith, f, t))
        | inr t ↦ inr (o, f, ground (arith, f, t))
      ]
    ]

pub update_order_status-IsHistory :
    (org : Uuid) (name : OrderName) (status : String) (user : Option Uuid)
    → Keeps IsHistory (update_order_status org name status user)
update_order_status-IsHistory org name status user = record {
  at = λ db k.
      Returns-of IsHistory (update_order_status org name status user db).0
        (update_order_status org name status user db).1
        λ a h. elim (update_order_status-cases org name status user db) [
          | inl same ↦ subst IsHistory (sym same) k
          | inr (o, f, e) ↦
              subst IsHistory (sym e) (write_status-IsHistory org name status user o db f k)
        ];
}

-- Reading an order changes nothing that the history is about.
abbrev read : Order → Order
read o = record o { is_read = true }

IsTraced-read :
    (c : Order → Bool) (os : List Order) (h : List StatusEntry)
    → IsTraced os h
    → IsTraced (update_rows c read os) h
unfolding IsTraced
IsTraced-read c [] h k = tt
IsTraced-read c (o ∷ os) h k = elim (Bool-cases (c o)) [
  | inl t ↦ (
    rw t k.0,
    rw t k.1,
    rw (t, any-update_rows (is_clash o) c read (λ a. refl) os) k.2,
    IsTraced-read c os h k.3,
  )
  | inr n ↦ (
    rw n k.0,
    rw n k.1,
    rw (n, any-update_rows (is_clash o) c read (λ a. refl) os) k.2,
    IsTraced-read c os h k.3,
  )
]

mark_order_read_returns :
    (org : Uuid) (name : OrderName) (db : OrderStore)
    → (mark_order_read org name db).0 ≡ ok tt
    → (mark_order_read org name db).1
      ≡ record db { orders = update_rows (is_named org name) read db.orders }
unfolding mark_order_read ◌>>=◌
mark_order_read_returns org name db h =
    elim (Option-cases (find_row (is_named org name) db.orders)) [
      | inl n ↦ ground (arith, n, h)
      | inr (o, f) ↦ ground (arith, f)
    ]

pub mark_order_read-IsHistory :
    (org : Uuid) (name : OrderName) → Keeps IsHistory (mark_order_read org name)
mark_order_read-IsHistory org name = record {
  at = λ db k.
      Returns-of IsHistory (mark_order_read org name db).0 (mark_order_read org name db).1 λ a h.
        subst IsHistory (sym (mark_order_read_returns org name db h)) record {
          traced = IsTraced-read (is_named org name) db.orders db.history k.traced;
          attached =
              IsAttached-update (is_named org name) read (λ o. refl) db.orders db.history
                k.attached;
        };
}
