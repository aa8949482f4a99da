-- ===== src/Sessions/Lockout.antt =====
-- Five wrong PINs in a row lock a card.
use mathlib.Core.Path.{subst}
use daja_platform.Base.{
  ℕ, suc, ◌+◌, ◌<◌, ◌≤◌, ◌≡◌, refl, sym, ap, Bool, true, false, none, some, List, [], ◌∷◌, ◌==◌,
  leb, find_row, update_rows, length, All, ok, err, arith, ◌>>=◌, ◌⊎◌, inl, inr, Bool-cases,
}
use daja_platform.Base.Rows.{find_row-update_rows}
use daja_platform.Context.{Uuid}
use daja_platform.Security.Errors.{invalid_credentials}
use daja_platform.Transactions.{Driver, Pool}
use daja_platform.Transactions.Atomicity.{run_raises, run_refused, run_committed}
use daja_platform.Tokens.{Codec}
use daja_platform.Tokens.Split.{Text}
use daja_platform.Sessions.Schema.{Digest, StaffDevice, Card, AuthDb, Config, Fresh}
use daja_platform.Sessions.Repository.{LoginDevice}
use daja_platform.Sessions.Login.{
  CardLogin, fifteen_minutes, is_usable, is_locked, counted_failure, has_active_user, write_cards,
  try_pin, refuse_pin, login_card, login_with_nfc_card,
}

module _ (codec : Codec) (hash : Text → Digest) (config : Config)
    (admits : LoginDevice → List StaffDevice → Bool) (matches : Text → Text → Bool) where
  -- Logins one after another, whatever each of them answers.
  unfoldable pub login_all : Driver → ℕ → Fresh → List CardLogin → Pool AuthDb → Pool AuthDb
  unfolding login_with_nfc_card
  login_all d now fresh [] p = p
  login_all d now fresh (i ∷ is) p =
      login_all d now fresh is
        (login_with_nfc_card codec hash config admits matches d now fresh i p).1

  module _ (card_id : Uuid) (pin_hash : Text) where
    -- A card that is in use, with its PIN and its user.
    pub record IsCard (db : AuthDb) (c : Card) : Type 0 where
      pub found : find_row (is_usable card_id) db.cards ≡ some c
      pub has_pin : c.pin_hash ≡ pin_hash
      pub has_user : has_active_user db.policy.users c ≡ true

    locked_refused :
        (now : ℕ) (fresh : Fresh) (input : CardLogin) (db : AuthDb) (c : Card)
        → input.card_id ≡ card_id
        → IsCard db c
        → is_locked now c ≡ true
        → login_card codec hash config admits matches now fresh input db
          ≡ (err invalid_credentials, db)
    unfolding login_card ◌>>=◌
    locked_refused now fresh input db c same k l = rw (same, k.found, k.has_user, l) refl

    wrong_counted :
        (now : ℕ) (fresh : Fresh) (input : CardLogin) (db : AuthDb) (c : Card)
        → input.card_id ≡ card_id
        → IsCard db c
        → is_locked now c ≡ false
        → matches pin_hash input.pin ≡ false
        → login_card codec hash config admits matches now fresh input db ≡ (
          ok none,
          record db {
            cards =
                update_rows
                  (λ x. x.id == c.id)
                  (counted_failure now (c.failed_pin_attempts + 1))
                  db.cards;
          },
        )
    unfolding login_card try_pin refuse_pin write_cards ◌>>=◌
    wrong_counted now fresh input db c same k l wrong =
        rw (same, k.found, k.has_user, l, k.has_pin, wrong) refl

    counted_IsCard :
        (now n : ℕ) (db : AuthDb) (c : Card)
        → IsCard db c
        → IsCard
            (record db { cards = update_rows (λ x. x.id == c.id) (counted_failure now n) db.cards })
            (counted_failure now n c)
    counted_IsCard now n db c k = record {
      found =
          (let f =
              find_row-update_rows (is_usable card_id) (λ x. x.id == c.id) (counted_failure now n)
                (λ a. refl) db.cards c k.found in
            ground (arith, f));
      has_pin = k.has_pin;
      has_user = k.has_user;
    }

    module _ (now later : ℕ) where
      abbrev Locked : AuthDb → Type 0
      Locked db = (c : Card) × IsCard db c × (is_locked now c ≡ true) × (is_locked later c ≡ true)

      abbrev Free : ℕ → AuthDb → Type 0
      Free n db = (c : Card) × IsCard db c × (is_locked now c ≡ false) × (c.failed_pin_attempts ≡ n)

      module _ (d : Driver) (fresh : Fresh) (connects : d.connect ≡ none)
          (begins : d.begin_fails ≡ none) (quiet : d.fault ≡ none)
          (commits : d.commit_fails ≡ none) where
        login-Locked :
            (input : CardLogin) (p : Pool AuthDb)
            → input.card_id ≡ card_id
            → Locked p.database
            → Locked
                (login_with_nfc_card codec hash config admits matches d now fresh input
                  p).1.database
        unfolding login_with_nfc_card
        login-Locked input p same (c, k, l, l') =
            let op = login_card codec hash config admits matches now fresh input in
            let e = locked_refused now fresh input p.database c same k l in
            let r = run_refused d op p invalid_credentials connects begins (ap (λ o. o.0) e) in
            subst Locked (sym (run_raises d op p invalid_credentials r).0) (c, k, l, l')

        login-Free :
            (input : CardLogin) (p : Pool AuthDb) (n : ℕ)
            → later < now + fifteen_minutes
            → input.card_id ≡ card_id
            → matches pin_hash input.pin ≡ false
            → Free n p.database
            → let q =
                (login_with_nfc_card codec hash config admits matches d now fresh input p).1 in
              Locked q.database ⊎ (Free (suc n) q.database × (suc n < 5))
        unfolding login_with_nfc_card
        login-Free input p n soon same wrong (c, k, free, failed) =
            let op = login_card codec hash config admits matches now fresh input in
            let e = wrong_counted now fresh input p.database c same k free wrong in
            let (_, after) = run_committed d op p none _ connects begins quiet commits e in
            let k' = counted_IsCard now (c.failed_pin_attempts + 1) p.database c k in
            elim (Bool-cases (leb 5 (c.failed_pin_attempts + 1))) [
              | inl t ↦
                  inl (subst Locked (sym after) (_, k', ground (arith, t), ground (arith, t, soon)))
              | inr t ↦ inr (
                subst (Free (suc n)) (sym after) (_, k', ground (arith, t), ground (arith, failed)),
                ground (arith, t, failed),
              )
            ]

        login_all-Locked :
            (inputs : List CardLogin) (p : Pool AuthDb)
            → All (λ i. i.card_id ≡ card_id) inputs
            → Locked p.database
            → Locked (login_all d now fresh inputs p).database
        unfolding login_all
        login_all-Locked [] p same k = k
        login_all-Locked (i ∷ is) p same k =
            login_all-Locked is _ same.1 (login-Locked i p same.0 k)

        -- From a count below five.
        few_logins :
            (n : ℕ) (inputs : List CardLogin) (p : Pool AuthDb)
            → later < now + fifteen_minutes
            → All (λ x. x.card_id ≡ card_id) inputs
            → All (λ x. matches pin_hash x.pin ≡ false) inputs
            → 5 ≤ n + length inputs
            → Free n p.database
            → n < 5
            → Locked (login_all d now fresh inputs p).database
        unfolding login_all
        few_logins n [] p soon same wrong enough free few = absurd (omega (arith, enough, few))
        few_logins n (i ∷ inputs) p soon same wrong enough free few =
            elim (login-Free i p n soon same.0 wrong.0 free) [
              | inl locked ↦ login_all-Locked inputs _ same.1 locked
              | inr (still, few') ↦
                  few_logins (suc n) inputs _ soon same.1 wrong.1 (omega (arith, enough)) still few'
            ]

        wrong_logins :
            (n : ℕ) (i : CardLogin) (inputs : List CardLogin) (p : Pool AuthDb)
            → later < now + fifteen_minutes
            → All (λ x. x.card_id ≡ card_id) (i ∷ inputs)
            → All (λ x. matches pin_hash x.pin ≡ false) (i ∷ inputs)
            → 5 ≤ n + length (i ∷ inputs)
            → Free n p.database
            → Locked (login_all d now fresh (i ∷ inputs) p).database
        unfolding login_all
        wrong_logins n i inputs p soon same wrong enough free =
            elim (login-Free i p n soon same.0 wrong.0 free) [
              | inl locked ↦ login_all-Locked inputs _ same.1 locked
              | inr (still, few) ↦
                  few_logins (suc n) inputs _ soon same.1 wrong.1 (omega (arith, enough)) still few
            ]

  -- Five wrong PINs in a row lock a card: from a card in use that is not locked and whose user is
  -- active, after at least one login and as many with a wrong PIN at one time as make five with
  -- those already counted, each committed, every login with the card in the next fifteen minutes is
  -- refused as invalid credentials, the right PIN included, and changes no row. The driver of the
  -- wrong logins does not fail, and that of the last one connects and begins.
  pub login-locked :
      (d d' : Driver) (now later : ℕ) (fresh fresh' : Fresh) (i : CardLogin)
      (inputs : List CardLogin) (input : CardLogin) (card : Card) (p : Pool AuthDb)
      → d.connect ≡ none
      → d.begin_fails ≡ none
      → d.fault ≡ none
      → d.commit_fails ≡ none
      → d'.connect ≡ none
      → d'.begin_fails ≡ none
      → find_row (is_usable input.card_id) p.database.cards ≡ some card
      → has_active_user p.database.policy.users card ≡ true
      → is_locked now card ≡ false
      → All (λ x. x.card_id ≡ input.card_id) (i ∷ inputs)
      → All (λ x. matches card.pin_hash x.pin ≡ false) (i ∷ inputs)
      → 5 ≤ card.failed_pin_attempts + length (i ∷ inputs)
      → later < now + fifteen_minutes
      → let q = login_all d now fresh (i ∷ inputs) p in
        let r = login_with_nfc_card codec hash config admits matches d' later fresh' input q in
        (r.0 ≡ err invalid_credentials) × (r.1.database ≡ q.database)
  unfolding login_with_nfc_card
  login-locked d d' now later fresh fresh' i inputs input card p c b f m c' b' found user free same
        wrong enough soon =
      let q : Pool AuthDb = login_all d now fresh (i ∷ inputs) p in
      let is_card : IsCard input.card_id card.pin_hash p.database card = record {
        found = found;
        has_pin = refl;
        has_user = user;
      } in
      let (k, is, _, locked) =
        wrong_logins input.card_id card.pin_hash now later d fresh c b f m card.failed_pin_attempts
          i inputs p soon same wrong enough (card, is_card, free, refl) in
      let op = login_card codec hash config admits matches later fresh' input in
      let e =
        locked_refused input.card_id card.pin_hash later fresh' input q.database k refl is locked in
      let r = run_refused d' op q invalid_credentials c' b' (ap (λ o. o.0) e) in
      (rw r refl, (run_raises d' op q invalid_credentials r).0)
