-- ===== src/Promotions/Entitled.antt =====
-- Who may use a promotion and how the order may be shipped and paid, row by row of the tables.
use daja_platform.Base.{
  ℕ, ◌≡◌, refl, sym, ap, ◌∙◌, Bool, true, false, not, Option, none, some, List, [], ◌∷◌, ◌&&◌, ◌||◌,
  ◌==◌, leb, any, where_rows, find_row, is_empty, ok, arith, inl, inr, Bool-cases, Option-cases,
}
use daja_platform.Base.Keeps.{and_then_returns}
use daja_platform.Context.{Uuid}
use daja_platform.Promotions.Schema.{
  LoginRequirement, anyone, authenticated, guest, Shipping, Payment, Promotion, Principal,
  TargetType, include_customer, exclude_customer, CustomerTarget, Tables,
}
use daja_platform.Promotions.Audience.{
  CustomerStatus, is_some, check_login, is_target, names_customer, check_targets,
  customer_rule_required, status_of_customer, is_customer, check_status, check_customer,
  assert_audience, same_shipping, same_payment, assert_checkout_rules,
}

abbrev pub login_fits : LoginRequirement → Option Principal → Bool
login_fits anyone customer = true
login_fits authenticated customer = is_some customer
login_fits guest customer = not (is_some customer)

-- A target of the promotion of one type that names the customer.
abbrev pub is_target_of : Uuid → TargetType → Option Principal → CustomerTarget → Bool
is_target_of promotion type none t = false
is_target_of promotion type (some c) t =
    is_target promotion type t && t.customer_id == c.customer_id

abbrev pub at_least_if : Option ℕ → ℕ → Bool
at_least_if none n = true
at_least_if (some least) n = leb least n

abbrev pub at_most_if : Option ℕ → ℕ → Bool
at_most_if none n = true
at_most_if (some most) n = leb n most

-- What the promotion asks of a customer's account and past orders.
abbrev pub history_fits : Promotion → CustomerStatus → Bool
history_fits p s =
    (not p.requires_verified_email || s.email_verified)
    && (not p.requires_newsletter || s.newsletter_subscribed)
    && (not p.first_order_only || s.order_count == 0)
    && at_least_if p.min_customer_order_count s.order_count
    && at_most_if p.max_customer_order_count s.order_count
    && at_least_if p.min_customer_lifetime_spend s.lifetime_spend

-- The customer has a live account whose history fits, unless nothing is asked.
abbrev pub account_fits : Promotion → Option Principal → Tables → Bool
account_fits p none db = not (customer_rule_required p)
account_fits p (some c) db =
    not (customer_rule_required p)
    || any (λ row. is_customer c row && history_fits p (status_of_customer row db)) db.customers

pub record IsEntitled (p : Promotion) (customer : Option Principal) (db : Tables) : Type 0 where
  pub login : login_fits p.login_requirement customer ≡ true
  pub invited :
      (not (any (is_target p.id include_customer) db.targets)
        || any (is_target_of p.id include_customer customer) db.targets)
      ≡ true
  pub not_excluded : any (is_target_of p.id exclude_customer customer) db.targets ≡ false
  pub account : account_fits p customer db ≡ true

login_entitled :
    (l : LoginRequirement) (c : Option Principal) → check_login l c ≡ ok tt → login_fits l c ≡ true
unfolding check_login
login_entitled anyone c h = refl
login_entitled authenticated none h = cc
login_entitled authenticated (some c) h = refl
login_entitled guest none h = refl
login_entitled guest (some c) h = cc

any-where :
    {A : Type 0} (f g : A → Bool) (rows : List A)
    → any g (where_rows f rows) ≡ any (λ a. f a && g a) rows
any-where f g [] = refl
any-where f g (x ∷ rows) = ground (arith, any-where f g rows)

is_empty-where :
    {A : Type 0} (f : A → Bool) (rows : List A) → is_empty (where_rows f rows) ≡ not (any f rows)
is_empty-where f [] = refl
is_empty-where f (x ∷ rows) = ground (arith, is_empty-where f rows)

no_target :
    (id : Uuid) (type : TargetType) (rows : List CustomerTarget)
    → any (is_target_of id type none) rows ≡ false
no_target id type [] = refl
no_target id type (t ∷ rows) = no_target id type rows

names-target :
    (id : Uuid) (type : TargetType) (c : Option Principal) (rows : List CustomerTarget)
    → names_customer c (where_rows (is_target id type) rows) ≡ any (is_target_of id type c) rows
names-target id type none rows = sym (no_target id type rows)
names-target id type (some c) rows =
    any-where (is_target id type) (λ t. t.customer_id == c.customer_id) rows

targets_entitled :
    (id : Uuid) (c : Option Principal) (rows : List CustomerTarget)
    → check_targets
        (where_rows (is_target id include_customer) rows)
        (where_rows (is_target id exclude_customer) rows)
        c
      ≡ ok tt
    → ((not (any (is_target id include_customer) rows)
          || any (is_target_of id include_customer c) rows)
        ≡ true)
      × (any (is_target_of id exclude_customer c) rows ≡ false)
unfolding check_targets
targets_entitled id c rows h =
    let included = names-target id include_customer c rows in
    let excluded = names-target id exclude_customer c rows in
    let none_included = is_empty-where (is_target id include_customer) rows in
    (ground (arith, h, included, none_included), ground (arith, h, excluded))

history_entitled :
    (p : Promotion) (s : CustomerStatus) → check_status p s ≡ ok tt → history_fits p s ≡ true
unfolding check_status
history_entitled p s h = ground (arith, h)

found_both :
    {A : Type 0} (f g : A → Bool) (rows : List A) (a : A)
    → find_row f rows ≡ some a
    → g a ≡ true
    → any (λ x. f x && g x) rows ≡ true
found_both f g [] a e h = cc
found_both f g (x ∷ rows) a e h = elim (Bool-cases (f x)) [
  | inl t ↦
      let here : x ≡ a = ground (arith, t, e) in
      let fits : g x ≡ true = ap g here ∙ h in ground (arith, t, fits)
  | inr n ↦ ground (arith, n, found_both f g rows a (ground (arith, n, e)) h)
]

account_entitled :
    (p : Promotion) (c : Option Principal) (db : Tables)
    → check_customer p c db ≡ ok tt
    → account_fits p c db ≡ true
unfolding check_customer
account_entitled p none db h = ground (arith, h)
account_entitled p (some c) db h = elim (Bool-cases (customer_rule_required p)) [
  | inr n ↦ rw n refl
  | inl t ↦ elim (Option-cases (find_row (is_customer c) db.customers)) [
    | inl n ↦ absurd (ground (arith, h, n, t))
    | inr (row, f) ↦
        let checked : check_status p (status_of_customer row db) ≡ ok tt =
          ground (arith, h, f, t) in
        let fits = history_entitled p (status_of_customer row db) checked in
        let listed =
          found_both (is_customer c) (λ x. history_fits p (status_of_customer x db)) db.customers
            row f fits in
        rw t listed
  ]
]

pub assert_audience-IsEntitled :
    (p : Promotion) (c : Option Principal) (db : Tables)
    → assert_audience p c db ≡ ok tt
    → IsEntitled p c db
unfolding assert_audience
assert_audience-IsEntitled p c db h =
    let (_, login, rest) = and_then_returns (check_login p.login_requirement c) _ h in
    let (_, targets, last) = and_then_returns (check_targets _ _ c) _ rest in
    let (invited, not_excluded) = targets_entitled p.id c db.targets targets in
    record {
      login = login_entitled p.login_requirement c login;
      invited = invited;
      not_excluded = not_excluded;
      account = account_entitled p c db last;
    }

-- No list of methods is given, no method is chosen yet, or the chosen one is on the list.
abbrev pub shipping_fits : List Shipping → Option Shipping → Bool
shipping_fits methods none = true
shipping_fits methods (some m) = is_empty methods || any (same_shipping m) methods

abbrev pub payment_fits : List Payment → Option Payment → Bool
payment_fits methods none = true
payment_fits methods (some m) = is_empty methods || any (same_payment m) methods

pub checkout_entitled :
    (p : Promotion) (s : Option Shipping) (m : Option Payment)
    → assert_checkout_rules p s m ≡ ok tt
    → (shipping_fits p.allowed_shipping_methods s ≡ true)
      × (payment_fits p.allowed_payment_methods m ≡ true)
unfolding assert_checkout_rules
checkout_entitled p none none h = (refl, refl)
checkout_entitled p (some s) none h = (ground (arith, h), refl)
checkout_entitled p none (some m) h = (refl, ground (arith, h))
checkout_entitled p (some s) (some m) h = (ground (arith, h), ground (arith, h))
