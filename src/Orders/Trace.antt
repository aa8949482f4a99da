-- ===== src/Orders/Trace.antt =====
-- The history of an order's status.
use mathlib.Core.Path.{subst}
use daja_platform.Base.{
  ℕ, suc, ◌+◌, ◌≡◌, refl, sym, ap, ◌∙◌, String, Bool, true, false, Option, none, some, List, [],
  ◌∷◌, ◌==◌, any, if◌then◌else◌, find_row, update_rows, arith, Bool-cases, inl, inr,
}
use daja_platform.Base.Rows.{find_row-lacks, any-update_rows, update_rows-none}
use daja_platform.Context.{Uuid}
use daja_platform.Orders.{Order, OrderStore, StatusEntry, OrderName, is_clash, is_named}

-- The newest status of the order, and how often it was set.
unfoldable pub latest_status : Uuid → List StatusEntry → Option String
latest_status id [] = none
latest_status id (e ∷ es) =
    let rest = latest_status id es in if e.order_id == id then some e.status else rest

unfoldable pub status_count : Uuid → List StatusEntry → ℕ
status_count id [] = 0
status_count id (e ∷ es) = let n = status_count id es in if e.order_id == id then suc n else n

-- Orders do not clash; the newest entry of each is its status, and its version counts its entries.
unfoldable pub IsTraced : List Order → List StatusEntry → Type 0
IsTraced [] h = Unit
IsTraced (o ∷ os) h =
    (latest_status o.id h ≡ some o.status)
    × (status_count o.id h ≡ o.version)
    × (any (is_clash o) os ≡ false)
    × IsTraced os h

abbrev pub has_order : Uuid → List Order → Bool
has_order id = any (λ o. o.id == id)

-- Every entry is of an order in the table.
unfoldable pub IsAttached : List Order → List StatusEntry → Type 0
IsAttached os [] = Unit
IsAttached os (e ∷ es) = (has_order e.order_id os ≡ true) × IsAttached os es

pub record IsHistory (db : OrderStore) : Type 0 where
  pub traced : IsTraced db.orders db.history
  pub attached : IsAttached db.orders db.history

-- An entry of another order.
pub IsTraced-other :
    (os : List Order) (h : List StatusEntry) (e : StatusEntry)
    → has_order e.order_id os ≡ false
    → IsTraced os h
    → IsTraced os (e ∷ h)
unfolding IsTraced latest_status status_count
IsTraced-other [] h e n k = tt
IsTraced-other (o ∷ os) h e n k = (
  ground (arith, n, k.0),
  ground (arith, n, k.1),
  k.2,
  IsTraced-other os h e (ground (arith, n)) k.3,
)

-- Two orders of one name clash.
named_clash :
    (org : Uuid) (name : OrderName) (o p : Order)
    → is_named org name o ≡ true
    → is_named org name p ≡ true
    → is_clash o p ≡ true
named_clash org (OrderName.by_id id) o p h k = ground (arith, h, k)
named_clash org (OrderName.by_display_id d) o p h k = ground (arith, h, k)

none_named :
    (org : Uuid) (name : OrderName) (o : Order) (os : List Order)
    → is_named org name o ≡ true
    → any (is_clash o) os ≡ false
    → any (is_named org name) os ≡ false
none_named org name o [] h n = refl
none_named org name o (p ∷ os) h n = elim (Bool-cases (is_named org name p)) [
  | inl t ↦ ground (arith, n, named_clash org name o p h t)
  | inr m ↦ ground (arith, m, none_named org name o os h (ground (arith, n)))
]

pub none_identified :
    (o : Order) (os : List Order) → any (is_clash o) os ≡ false → has_order o.id os ≡ false
none_identified o [] n = refl
none_identified o (p ∷ os) n = ground (arith, n, none_identified o os (ground (arith, n)))

abbrev pub set_status : String → Order → Order
set_status status o = record o { status = status; version = o.version + 1 }

pub IsTraced-write :
    (org : Uuid) (name : OrderName) (status : String) (os : List Order) (h : List StatusEntry)
    (e : StatusEntry) (found : Order)
    → find_row (is_named org name) os ≡ some found
    → e.order_id ≡ found.id
    → e.status ≡ status
    → IsTraced os h
    → IsTraced (update_rows (is_named org name) (set_status status) os) (e ∷ h)
unfolding IsTraced latest_status status_count
IsTraced-write org name status [] h e found f i s k = cc
IsTraced-write org name status (o ∷ os) h e found f i s k =
    elim (Bool-cases (is_named org name o)) [
      | inl t ↦
          let same : o ≡ found = ground (arith, t, f) in
          let own : e.order_id ≡ o.id = i ∙ sym (ap (λ x. x.id) same) in
          let rest =
            update_rows-none (is_named org name) (set_status status) os
              (none_named org name o os t k.2) in
          (
            ground (arith, t, own, s),
            ground (arith, t, own, k.1),
            rw (t, rest) k.2,
            rw rest (
                IsTraced-other os h e
                  (subst (λ x. has_order x os ≡ false) (sym own) (none_identified o os k.2)) k.3),
          )
      | inr n ↦
          let f' : find_row (is_named org name) os ≡ some found = ground (arith, n, f) in
          let apart = find_row-lacks (is_clash o) (is_named org name) os found k.2 f' in
          (
            ground (arith, n, i, apart, k.0),
            ground (arith, n, i, apart, k.1),
            rw
                (
                  n,
                  any-update_rows (is_clash o) (is_named org name) (set_status status) (λ a. refl)
                      os,
                )
                k.2,
            IsTraced-write org name status os h e found f' i s k.3,
          )
    ]
