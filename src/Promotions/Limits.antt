-- ===== src/Promotions/Limits.antt =====
-- A promotion is used as often as its row counts, and never more often than its limits allow.
use daja_platform.Base.{
  ℕ, ◌≡◌, ◌≢◌, false, Option, none, some, List, [], ◌∷◌, All, ◌==◌, if◌then◌else◌, length,
  where_rows, find_row, update_rows, ok, arith, inl, inr, Bool-cases, Option-cases, ◌>>=◌,
}
use mathlib.Core.Path.{subst, sym}
use daja_platform.Base.Keeps.{Keeps, Returns-of}
use daja_platform.Base.Rows.{find_row-All, update_rows-All}
use daja_platform.Context.{Uuid}
use daja_platform.Transactions.{Driver, Pool, run}
use daja_platform.Transactions.Atomicity.{run_keeps}
use daja_platform.Promotions.Schema.{Promotion, PromotionResolution, Principal, Redemption, Tables}
use daja_platform.Promotions.Audience.{above}
use daja_platform.Promotions.Resolve.{used_up}
use daja_platform.Promotions.Consume.{
  is_live_promotion, is_redemption_by, count_by, used_up_by, used_once, redemption_of,
  insert_redemption, consume_row, consume,
}

abbrev pub uses_of : Uuid → List Redemption → ℕ
uses_of promotion rows = length (where_rows (λ r. r.promotion_id == promotion) rows)

-- No two promotions have one id.
abbrev pub Distinct : List Promotion → Type 0
Distinct [] = Unit
Distinct (p ∷ ps) = All (λ q. p.id ≢ q.id) ps × Distinct ps

abbrev pub Counts : Tables → Promotion → Type 0
Counts db p = p.uses_count ≡ uses_of p.id db.redemptions

abbrev pub KeepsTotal : Promotion → Type 0
KeepsTotal p = above p.uses_count p.total_usage_limit ≡ false

-- No customer of the promotion's organization has used it more often than a customer may.
abbrev pub KeepsShare : Tables → Uuid → Promotion → Type 0
KeepsShare db customer p =
    above (count_by p.organization_id p.id customer db) p.per_customer_usage_limit ≡ false

pub record IsCounted (db : Tables) : Type 0 where
  pub distinct : Distinct db.promotions
  pub counted : All (Counts db) db.promotions
  pub within_total : All KeepsTotal db.promotions
  pub within_share : (customer : Uuid) → All (KeepsShare db customer) db.promotions

-- A row with the id of a row that was found is that row.
abbrev SameRow : Promotion → Promotion → Type 0
SameRow p q = q.id ≡ p.id → q ≡ p

others_differ :
    (p : Promotion) (rows : List Promotion) → All (λ q. p.id ≢ q.id) rows → All (SameRow p) rows
others_differ p [] h = tt
others_differ p (q ∷ rows) h = ((λ e. absurd (ground (arith, h.0, e))), others_differ p rows h.1)

same_rows :
    (org id : Uuid) (p : Promotion) (rows : List Promotion)
    → Distinct rows
    → find_row (is_live_promotion org id) rows ≡ some p
    → All (SameRow p) rows
same_rows org id p [] d e = tt
same_rows org id p (q ∷ rows) d e = elim (Bool-cases (is_live_promotion org id q)) [
  | inl t ↦
      let here : q ≡ p = ground (arith, t, e) in
      ((λ _. here), others_differ p rows (rw here at d.0))
  | inr n ↦
      let found = rw n at e in
      let apart = find_row-All (λ r. q.id ≢ r.id) (is_live_promotion org id) rows p d.0 found in
      ((λ same. absurd (ground (arith, apart, same))), same_rows org id p rows d.1 found)
]

share_used :
    (org : Uuid) (resolution : PromotionResolution) (customer : Option Principal) (order_id : Uuid)
    (p : Promotion) (db : Tables)
    → p.organization_id ≡ org
    → used_up_by org p customer db ≡ false
    → (c : Uuid) → KeepsShare db c p
    → above
        (length (
          where_rows
            (is_redemption_by p.organization_id p.id c)
            (redemption_of org p resolution customer order_id ∷ db.redemptions)))
        p.per_customer_usage_limit
      ≡ false
share_used org resolution none order_id p db here spent c k = ground (arith, k)
share_used org resolution (some x) order_id p db here spent c k =
    let one = rw here at k in rw here (ground (arith, spent, one))

-- The tables after a use of `p` was counted.
module _ (org : Uuid) (resolution : PromotionResolution) (customer : Option Principal)
    (order_id : Uuid) (p : Promotion) (db : Tables) where
  abbrev pub used_promotions : List Promotion
  used_promotions = update_rows (λ q. q.id == p.id) used_once db.promotions

  abbrev pub consumed : Tables
  consumed = record db {
    promotions = used_promotions;
    redemptions = redemption_of org p resolution customer order_id ∷ db.redemptions;
  }

  consume_row_writes :
      (consume_row org resolution customer order_id p db).0 ≡ ok tt
      → ((consume_row org resolution customer order_id p db).1 ≡ consumed)
        × (used_up p.total_usage_limit p.uses_count ≡ false)
        × (used_up_by org p customer db ≡ false)
  unfolding consume_row insert_redemption ◌>>=◌
  consume_row_writes h = ground (arith, h)

  distinct_head :
      (q : Promotion) (rows : List Promotion)
      → All (λ r. q.id ≢ r.id) rows
      → (q' : Promotion) → q'.id ≡ q.id
      → All (λ r. q'.id ≢ r.id) (update_rows (λ r. r.id == p.id) used_once rows)
  distinct_head q [] h q' e = tt
  distinct_head q (r ∷ rows) h q' e = (ground (arith, h.0, e), distinct_head q rows h.1 q' e)

  used-Distinct :
      (rows : List Promotion)
      → Distinct rows
      → Distinct (update_rows (λ q. q.id == p.id) used_once rows)
  used-Distinct [] d = tt
  used-Distinct (q ∷ rows) d = (
    distinct_head q rows d.0 (if q.id == p.id then used_once q else q) (ground arith),
    used-Distinct rows d.1,
  )

  share_kept :
      p.organization_id ≡ org
      → used_up_by org p customer db ≡ false
      → (c : Uuid) (q : Promotion) → KeepsShare db c q
      → SameRow p q
      → KeepsShare consumed c (if q.id == p.id then used_once q else q)
  share_kept here spent c q k same = elim (Bool-cases (q.id == p.id)) [
    | inl t ↦
        let eq : q ≡ p = same (ground (arith, t)) in
        subst (λ b. KeepsShare consumed c (if b then used_once q else q)) (sym t)
          (subst (λ x. KeepsShare consumed c (used_once x)) (sym eq)
            (share_used org resolution customer order_id p db here spent c
              (subst (KeepsShare db c) eq k)))
    | inr n ↦
        subst (λ b. KeepsShare consumed c (if b then used_once q else q)) (sym n)
          (ground (arith, n, k))
  ]

  consumed-IsCounted :
      p.organization_id ≡ org
      → All (SameRow p) db.promotions
      → used_up p.total_usage_limit p.uses_count ≡ false
      → used_up_by org p customer db ≡ false
      → IsCounted db
      → IsCounted consumed
  consumed-IsCounted here same left spent k = record {
    distinct = used-Distinct db.promotions k.distinct;
    counted =
        update_rows-All (Counts consumed) (λ q. q.id == p.id) used_once (λ q c s. ground (arith, c))
          db.promotions k.counted same;
    within_total =
        update_rows-All KeepsTotal (λ q. q.id == p.id) used_once
          (λ q c s. elim (Bool-cases (q.id == p.id)) [
            | inl t ↦ rw t (rw (s (ground (arith, t))) (ground (arith, left)))
            | inr n ↦ rw n c
          ])
          db.promotions k.within_total same;
    within_share = λ c.
        update_rows-All (KeepsShare consumed c) (λ q. q.id == p.id) used_once
          (share_kept here spent c) db.promotions (k.within_share c) same;
  }

is_live_org :
    (org id : Uuid) (p : Promotion) (rows : List Promotion)
    → find_row (is_live_promotion org id) rows ≡ some p
    → p.organization_id ≡ org
is_live_org org id p [] e = cc
is_live_org org id p (q ∷ rows) e = ground (arith, e, is_live_org org id p rows)

consume-IsCounted :
    (org : Uuid) (resolution : PromotionResolution) (customer : Option Principal) (order_id : Uuid)
    → Keeps IsCounted (consume org resolution customer order_id)
unfolding consume ◌>>=◌
consume-IsCounted org resolution customer order_id = record {
  at = λ db k. elim (Option-cases resolution.promotion_id) [
    | inl e ↦ rw e k
    | inr (id, e) ↦ rw e (elim (Option-cases (find_row (is_live_promotion org id) db.promotions)) [
      | inl missing ↦ rw missing tt
      | inr (p, found) ↦ rw found (
          Returns-of IsCounted (consume_row org resolution customer order_id p db).0
            (consume_row org resolution customer order_id p db).1
            (λ _ h.
              let (writes, left, spent) =
                consume_row_writes org resolution customer order_id p db h in
              rw writes (
                consumed-IsCounted org resolution customer order_id p db
                  (is_live_org org id p db.promotions found)
                  (same_rows org id p db.promotions k.distinct found) left spent k)))
    ])
  ];
}

-- If no two promotions share an id, every promotion counts exactly its redemptions, none is used
-- more often than its total limit, and no customer has used one more often than its limit for a
-- customer, then all this still holds after a use of a code in a transaction, however it ends.
pub run-consume-IsCounted :
    (d : Driver) (org : Uuid) (resolution : PromotionResolution) (customer : Option Principal)
    (order_id : Uuid) (p : Pool Tables)
    → IsCounted p.database
    → IsCounted (run d (consume org resolution customer order_id) p).1.database
run-consume-IsCounted d org resolution customer order_id p =
    run_keeps IsCounted d _ p (consume-IsCounted org resolution customer order_id)
