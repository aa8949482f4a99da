-- ===== src/Resets/Once.antt =====
-- A link for a new password works once.
use mathlib.Core.Path.{subst}
use daja_platform.Base.{
  ℕ, ◌≤◌, ◌≡◌, refl, sym, ap, Bool, true, false, not, Option, none, some, List, [], ◌∷◌, any,
  where_rows, update_rows, ok, err, arith, Action, is_empty, if◌then◌else◌, All, ◌>>=◌,
}
use daja_platform.Base.Keeps.{
  Keeps, returned_value, bind_returns, bind_ok, Keeps-or_raise, Keeps-bind, Keeps-gets,
  Keeps-raise_if, Keeps-modify, Keeps-pure, Keeps-raise,
}
use daja_platform.Transactions.{Driver, Pool, run}
use daja_platform.Transactions.Atomicity.{run_returns, run_keeps, run_refused}
use daja_platform.Tokens.Split.{Text, same_text}
use daja_platform.Resets.{
  Identity, ResetToken, CustomerAccount, ResetDb, ResetInput, ResetRecord, bad_link, is_redeemable,
  is_pending, may_replace, no_email, renewed, used, rewrite_token, insert_token, save_token,
  save_for, reset_record, record_with, save_over, join_customer, create_customer_password_reset,
  consume_customer_password_reset,
}
use daja_platform.Context.{Uuid}
use daja_platform.Resets.Service.{
  write_identity, save_password_identity, lock_customer, delete_passkeys, disable_passwords,
  prove_email, revoke_customer_sessions, set_password, reset_password,
}

-- No token of the hash can be used from `now` on.
abbrev pub IsSpent : Text → ℕ → ResetDb → Type 0
IsSpent hash now db = any (is_redeemable hash now) db.tokens ≡ false

any-used :
    (hash other : Text) (now at : ℕ) (rows : List ResetToken)
    → any (is_redeemable hash now) rows ≡ false
    → any (is_redeemable hash now) (update_rows (is_redeemable other at) (used at) rows) ≡ false
any-used hash other now at [] h = refl
any-used hash other now at (t ∷ ts) h =
    ground (arith, h, any-used hash other now at ts (ground (arith, h)))

any-consumed :
    (hash : Text) (now : ℕ) (rows : List ResetToken)
    → any (is_redeemable hash now) (update_rows (is_redeemable hash now) (used now) rows) ≡ false
any-consumed hash now [] = refl
any-consumed hash now (t ∷ ts) = ground (arith, any-consumed hash now ts)

any-renewed :
    (hash : Text) (now at org customer : ℕ) (input : ResetInput) (rows : List ResetToken)
    → same_text input.token_hash hash ≡ false
    → any (is_redeemable hash now) rows ≡ false
    → any (is_redeemable hash now) (update_rows (is_pending org customer) (renewed at input) rows)
      ≡ false
any-renewed hash now at org customer input [] d h = refl
any-renewed hash now at org customer input (t ∷ ts) d h =
    ground (arith, d, h, any-renewed hash now at org customer input ts d (ground (arith, h)))

none_later :
    (hash : Text) (now later : ℕ) (rows : List ResetToken)
    → now ≤ later
    → any (is_redeemable hash now) rows ≡ false
    → where_rows (is_redeemable hash later) rows ≡ []
none_later hash now later [] l h = refl
none_later hash now later (t ∷ ts) l h =
    ground (arith, l, h, none_later hash now later ts l (ground (arith, h)))

-- Requests that make a token of another hash, or that use any token.
pub data ResetRequest : Type 0 where
  ask : ResetInput → ResetRequest
  follow : Uuid → Text → Text → ResetRequest

abbrev pub asks_other : Text → ResetRequest → Bool
asks_other hash (ask input) = not (same_text input.token_hash hash)
asks_other hash (follow id h password) = true

rewrite_token-IsSpent :
    (hash : Text) (now at customer : ℕ) (input : ResetInput)
    → same_text input.token_hash hash ≡ false
    → Keeps (IsSpent hash now) (rewrite_token at customer input)
unfolding rewrite_token
rewrite_token-IsSpent hash now at customer input d = Keeps-bind _ _ _ (Keeps-gets _ _) λ ts.
    Keeps-bind _ _ _ (Keeps-raise_if _ _ _) λ _.
      Keeps-modify _ _
        λ db h. any-renewed hash now at input.organization_id customer input db.tokens d h

insert_token-IsSpent :
    (hash : Text) (now at customer : ℕ) (input : ResetInput)
    → same_text input.token_hash hash ≡ false
    → Keeps (IsSpent hash now) (insert_token at customer input)
unfolding insert_token
insert_token-IsSpent hash now at customer input d =
    Keeps-bind _ _ _ (Keeps-gets _ _) λ ts.
      Keeps-bind _ _ _ (Keeps-raise_if _ _ _) λ _. Keeps-modify _ _ λ db h. ground (arith, d, h)

Keeps-if :
    {S A : Type 0} (P : S → Type 0) (c : Bool) (m n : Action S A)
    → Keeps P m
    → Keeps P n
    → Keeps P (if c then m else n)
Keeps-if P true m n h k = h
Keeps-if P false m n h k = k

save_over-IsSpent :
    (hash : Text) (now at customer : ℕ) (input : ResetInput) (t : Option ResetToken)
    → same_text input.token_hash hash ≡ false
    → Keeps (IsSpent hash now) (save_over at customer input t)
unfolding save_over
save_over-IsSpent hash now at customer input none d =
    Keeps-bind _ _ _ (insert_token-IsSpent hash now at customer input d) λ _. Keeps-pure _ true
save_over-IsSpent hash now at customer input (some t) d =
    Keeps-if _ (may_replace at t) _ _
      (Keeps-bind _ _ _ (rewrite_token-IsSpent hash now at customer input d) λ _. Keeps-pure _ true)
      (Keeps-pure _ false)

save_token-IsSpent :
    (hash : Text) (now at customer : ℕ) (input : ResetInput)
    → same_text input.token_hash hash ≡ false
    → Keeps (IsSpent hash now) (save_token at customer input)
unfolding save_token
save_token-IsSpent hash now at customer input d =
    Keeps-bind _ _ _ (Keeps-gets _ _) λ t. save_over-IsSpent hash now at customer input t d

save_for-IsSpent :
    (hash : Text) (now at : ℕ) (input : ResetInput) (c : Option CustomerAccount)
    → same_text input.token_hash hash ≡ false
    → Keeps (IsSpent hash now) (save_for at input c)
unfolding save_for
save_for-IsSpent hash now at input none d = Keeps-pure _ none
save_for-IsSpent hash now at input (some c) d =
    Keeps-if _ (no_email c.email) _ _ (Keeps-pure _ none)
      (Keeps-bind _ _ _ (save_token-IsSpent hash now at c.id input d) λ saved. Keeps-pure _ _)

create-IsSpent :
    (lower : Text → Text) (hash : Text) (now at : ℕ) (input : ResetInput)
    → same_text input.token_hash hash ≡ false
    → Keeps (IsSpent hash now) (create_customer_password_reset lower at input)
unfolding create_customer_password_reset
create-IsSpent lower hash now at input d =
    Keeps-bind _ _ _ (Keeps-gets _ _) λ c. save_for-IsSpent hash now at input c d

record_with-Keeps :
    (P : ResetDb → Type 0) (t : ResetToken) (phone email : Option Text)
    → Keeps P (record_with t phone email)
record_with-Keeps P t phone none = Keeps-raise P bad_link
record_with-Keeps P t phone (some e) =
    Keeps-if P (is_empty e) _ _ (Keeps-raise P bad_link) (Keeps-pure P _)

reset_record-Keeps :
    (P : ResetDb → Type 0) (r : Option (ResetToken × CustomerAccount)) → Keeps P (reset_record r)
reset_record-Keeps P none = Keeps-raise P bad_link
reset_record-Keeps P (some (t, c)) = record_with-Keeps P t c.phone c.email

consume-IsSpent :
    (hash other : Text) (now at : ℕ)
    → Keeps (IsSpent hash now) (consume_customer_password_reset at other)
unfolding consume_customer_password_reset
consume-IsSpent hash other now at = Keeps-bind _ _ _ (Keeps-gets _ _) λ r.
    Keeps-bind _ _ _ (Keeps-modify _ _ λ db h. any-used hash other now at db.tokens h)
      λ _. reset_record-Keeps _ r

-- What a link finds is answered without a write.
record_with-writes :
    (t : ResetToken) (phone email : Option Text) (db : ResetDb)
    → (record_with t phone email db).1 ≡ db
record_with-writes t phone none db = refl
record_with-writes t phone (some e) db = ground arith

reset_record-writes :
    (r : Option (ResetToken × CustomerAccount)) (db : ResetDb) → (reset_record r db).1 ≡ db
reset_record-writes none db = refl
reset_record-writes (some (t, c)) db = record_with-writes t c.phone c.email db

-- A link that was followed is spent, in the database of the transaction.
consume-spends :
    (hash : Text) (now : ℕ) (db : ResetDb)
    → IsSpent hash now (consume_customer_password_reset now hash db).1
unfolding consume_customer_password_reset ◌>>=◌
consume-spends hash now db =
    let found = join_customer db.customers (where_rows (is_redeemable hash now) db.tokens) in
    let after : ResetDb = record db {
      tokens = update_rows (is_redeemable hash now) (used now) db.tokens;
    } in
    subst (IsSpent hash now) (sym (reset_record-writes found after))
      (any-consumed hash now db.tokens)

consume-refused :
    (hash : Text) (now later : ℕ) (db : ResetDb)
    → now ≤ later
    → IsSpent hash now db
    → (consume_customer_password_reset later hash db).0 ≡ err bad_link
unfolding consume_customer_password_reset join_customer ◌>>=◌
consume-refused hash now later db l h = rw (none_later hash now later db.tokens l h) refl

write_identity-IsSpent :
    (hash : Text) (now new_id org customer : ℕ) (subject password : Text) (i : Option Identity)
    → Keeps (IsSpent hash now) (write_identity new_id org customer subject password i)
unfolding write_identity
write_identity-IsSpent hash now new_id org customer subject password (some found) =
    Keeps-bind _ _ _ (Keeps-raise_if _ _ _) λ _. Keeps-modify _ _ λ db h. h
write_identity-IsSpent hash now new_id org customer subject password none =
    Keeps-bind _ _ _ (Keeps-gets _ _)
      λ _. Keeps-bind _ _ _ (Keeps-raise_if _ _ _) λ _. Keeps-modify _ _ λ db h. h

module _ (lower trim lower_case : Text → Text) where
  save_identity-IsSpent :
      (hash : Text) (now new_id org customer : ℕ) (email phone : Option Text) (password : Text)
      → Keeps
          (IsSpent hash now)
          (save_password_identity trim lower_case new_id org customer email phone password)
  unfolding save_password_identity
  save_identity-IsSpent hash now new_id org customer email phone password =
      Keeps-bind _ _ _ (Keeps-or_raise _ _ _) λ subject.
        Keeps-bind _ _ _ (Keeps-gets _ _)
          λ i. write_identity-IsSpent hash now new_id org customer subject password i

  set_password-IsSpent :
      (hash : Text) (now at new_id : ℕ) (password : Text) (r : ResetRecord)
      → Keeps (IsSpent hash now) (set_password trim lower_case at new_id password r)
  unfolding set_password lock_customer delete_passkeys disable_passwords prove_email
      revoke_customer_sessions
  set_password-IsSpent hash now at new_id password r =
      Keeps-bind _ _ _ (Keeps-bind _ _ _ (Keeps-gets _ _) λ _. Keeps-raise_if _ _ _) λ _.
        Keeps-bind _ _ _ (Keeps-modify _ _ λ db h. h) λ _.
          Keeps-bind _ _ _ (Keeps-modify _ _ λ db h. h) λ _.
            Keeps-bind _ _ _
              (save_identity-IsSpent hash now new_id r.organization_id r.customer_id (some r.email)
                r.phone password)
              λ _. Keeps-bind _ _ _ (Keeps-modify _ _ λ db h. h) λ _. Keeps-modify _ _ λ db h. h

  reset_password-IsSpent :
      (hash other password : Text) (now at new_id : ℕ)
      → Keeps (IsSpent hash now) (reset_password trim lower_case at new_id other password)
  unfolding reset_password
  reset_password-IsSpent hash other password now at new_id =
      Keeps-bind _ _ _ (consume-IsSpent hash other now at)
        λ r. set_password-IsSpent hash now at new_id password r

  -- A password that was set has spent its link.
  reset_password-spends :
      (hash password : Text) (now new_id : ℕ) (db : ResetDb) (u : Unit {0})
      → (reset_password trim lower_case now new_id hash password db).0 ≡ ok u
      → IsSpent hash now (reset_password trim lower_case now new_id hash password db).1
  unfolding reset_password
  reset_password-spends hash password now new_id db u h =
      let m : Action ResetDb ResetRecord = consume_customer_password_reset now hash in
      let f : ResetRecord → Action ResetDb (Unit {0}) =
        set_password trim lower_case now new_id password in
      let (r, consumed, rest) = bind_returns m f db h in
      let kept =
        (set_password-IsSpent hash now now new_id password r).at (m db).1
          (consume-spends hash now db) in
      subst (λ x. IsSpent hash now x.1) (sym (bind_ok m f db r consumed))
        (returned_value (IsSpent hash now) (f r (m db).1).0 (f r (m db).1).1 u kept rest)

  reset_password-refused :
      (hash password : Text) (now later new_id : ℕ) (db : ResetDb)
      → now ≤ later
      → IsSpent hash now db
      → (reset_password trim lower_case later new_id hash password db).0 ≡ err bad_link
  unfolding reset_password ◌>>=◌
  reset_password-refused hash password now later new_id db l h =
      rw (consume-refused hash now later db l h) refl

  -- Each request comes at its own time with its own transaction.
  unfoldable pub serve_reset : Driver → ℕ → ResetRequest → Pool ResetDb → Pool ResetDb
  serve_reset d at (ask input) p = (run d (create_customer_password_reset lower at input) p).1
  serve_reset d at (follow id hash password) p =
      (run d (reset_password trim lower_case at id hash password) p).1

  unfoldable pub serve_resets : List (Driver × ℕ × ResetRequest) → Pool ResetDb → Pool ResetDb
  unfolding serve_reset
  serve_resets [] p = p
  serve_resets ((d, at, r) ∷ rs) p = serve_resets rs (serve_reset d at r p)

  serve_reset-IsSpent :
      (hash : Text) (now : ℕ) (d : Driver) (at : ℕ) (r : ResetRequest) (p : Pool ResetDb)
      → asks_other hash r ≡ true
      → IsSpent hash now p.database
      → IsSpent hash now (serve_reset d at r p).database
  unfolding serve_reset
  serve_reset-IsSpent hash now d at (ask input) p o h =
      run_keeps (IsSpent hash now) d _ p
        (create-IsSpent lower hash now at input (ground (arith, o))) h
  serve_reset-IsSpent hash now d at (follow id other password) p o h =
      run_keeps (IsSpent hash now) d _ p (reset_password-IsSpent hash other password now at id) h

  serve_resets-IsSpent :
      (hash : Text) (now : ℕ) (rs : List (Driver × ℕ × ResetRequest)) (p : Pool ResetDb)
      → All (λ r. asks_other hash r.2 ≡ true) rs
      → IsSpent hash now p.database
      → IsSpent hash now (serve_resets rs p).database
  unfolding serve_resets
  serve_resets-IsSpent hash now [] p o h = h
  serve_resets-IsSpent hash now ((d, at, r) ∷ rs) p o h =
      serve_resets-IsSpent hash now rs (serve_reset d at r p) o.1
        (serve_reset-IsSpent hash now d at r p o.0 h)

  -- Once a password was reset with a link, the link is refused from that time on: after any
  -- requests, none of which makes a token of the same hash, following it again raises that the link
  -- is not valid, with a driver that connects and begins.
  pub follow_again :
      (d d' : Driver) (hash password password' : Text) (now later id id' : ℕ) (p : Pool ResetDb)
      (u : Unit {0}) (rs : List (Driver × ℕ × ResetRequest))
      → (run d (reset_password trim lower_case now id hash password) p).0 ≡ ok u
      → All (λ r. asks_other hash r.2 ≡ true) rs
      → now ≤ later
      → d'.connect ≡ none
      → d'.begin_fails ≡ none
      → (run d'
          (reset_password trim lower_case later id' hash password')
          (serve_resets rs (run d (reset_password trim lower_case now id hash password) p).1)).0
        ≡ err bad_link
  follow_again d d' hash password password' now later id id' p u rs h o l c b =
      let op : Action ResetDb (Unit {0}) = reset_password trim lower_case now id hash password in
      let q : Pool ResetDb = (run d op p).1 in
      let done = run_returns d op p u h in
      let spent : IsSpent hash now q.database =
        subst (IsSpent hash now) (ap (λ x. x.1) done)
          (reset_password-spends hash password now id p.database u (ap (λ x. x.0) done)) in
      run_refused d' (reset_password trim lower_case later id' hash password') (serve_resets rs q)
        bad_link c b
        (reset_password-refused hash password' now later id' (serve_resets rs q).database l
          (serve_resets-IsSpent hash now rs q o spent))
