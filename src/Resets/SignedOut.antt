-- ===== src/Resets/SignedOut.antt =====
-- A new password ends the customer's sessions.
use mathlib.Core.Path.{subst}
use daja_platform.Base.{
  ℕ, ◌≡◌, refl, sym, ap, ◌∙◌, false, List, [], ◌∷◌, any, update_rows, ok, Action, arith, String,
  ◌>>=◌,
}
use daja_platform.Base.Keeps.{bind_returns, bind_ok}
use daja_platform.Transactions.{Driver, Pool, run}
use daja_platform.Transactions.Atomicity.{run_returns}
use daja_platform.Tokens.Split.{Text}
use daja_platform.Resets.{CustomerSession, ResetDb, ResetRecord, consume_customer_password_reset}
use daja_platform.Resets.Service.{
  is_open_session, closed, revoke_customer_sessions, set_password, reset_password,
}

any-closed :
    (now org customer : ℕ) (reason : String) (rows : List CustomerSession)
    → any
        (is_open_session org customer)
        (update_rows (is_open_session org customer) (closed now reason) rows)
      ≡ false
any-closed now org customer reason [] = refl
any-closed now org customer reason (s ∷ rest) =
    ground (arith, any-closed now org customer reason rest)

-- What a last statement establishes, the chain does when it returns.
returns_last :
    {S A B : Type 0} (P : S → Type 0) (m : Action S A) (f : A → Action S B) (s : S) (b : B)
    → ((a : A) (t : S) → ((f a) t).0 ≡ ok b → P (f a t).1)
    → ((m >>= f) s).0 ≡ ok b
    → P ((m >>= f) s).1
returns_last P m f s b step h =
    let (a, returned, rest) = bind_returns m f s h in
    subst (λ x. P x.1) (sym (bind_ok m f s a returned)) (step a (m s).1 rest)

module _ (trim lower_case : Text → Text) where
  set_password-sessions :
      (now new_id : ℕ) (password : Text) (r : ResetRecord) (db : ResetDb) (u : Unit {0})
      → (set_password trim lower_case now new_id password r db).0 ≡ ok u
      → any
          (is_open_session r.organization_id r.customer_id)
          (set_password trim lower_case now new_id password r db).1.sessions
        ≡ false
  unfolding set_password revoke_customer_sessions
  set_password-sessions now new_id password r db u =
      let P : ResetDb → Type 0 =
        λ x. any (is_open_session r.organization_id r.customer_id) x.sessions ≡ false in
      returns_last P _ _ db u λ _ db. returns_last P _ _ db u λ _ db.
        returns_last P _ _ db u λ _ db. returns_last P _ _ db u λ _ db.
          returns_last P _ _ db u
            λ _ db _. any-closed now r.organization_id r.customer_id "password_reset" db.sessions

  -- A password that was reset leaves the customer whose link it was, the one that the token names
  -- when it is consumed, without an open session.
  pub reset_password-sessions :
      (d : Driver) (now new_id : ℕ) (hash password : Text) (p : Pool ResetDb) (u : Unit {0})
      → (run d (reset_password trim lower_case now new_id hash password) p).0 ≡ ok u
      → (r : ResetRecord) × ((consume_customer_password_reset now hash p.database).0 ≡ ok r)
        × (any
              (is_open_session r.organization_id r.customer_id)
              (run d
                (reset_password trim lower_case now new_id hash password)
                p).1.database.sessions
            ≡ false)
  unfolding reset_password
  reset_password-sessions d now new_id hash password p u h =
      let m : Action ResetDb ResetRecord = consume_customer_password_reset now hash in
      let f : ResetRecord → Action ResetDb (Unit {0}) =
        set_password trim lower_case now new_id password in
      let done = run_returns d (m >>= f) p u h in
      let (r, consumed, rest) = bind_returns m f p.database (ap (λ x. x.0) done) in
      (
        r,
        consumed,
        subst (λ x. any (is_open_session r.organization_id r.customer_id) x.1.sessions ≡ false)
            (sym (bind_ok m f p.database r consumed) ∙ done)
            (set_password-sessions now new_id password r (m p.database).1 u rest),
      )
