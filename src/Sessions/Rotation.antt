-- ===== src/Sessions/Rotation.antt =====
-- What a refresh does to the sessions of a family, and that it never adds a live one.
use mathlib.Core.Path.{subst}
use daja_platform.Base.{
  ℕ, suc, ◌/◌, String, ◌≡◌, sym, ◌≤◌, Bool, true, false, not, Option, none, some, List, [], ◌∷◌,
  ◌&&◌, ◌==◌, if◌then◌else◌, find_row, update_rows, Result, ok, err, arith, Bool-cases,
  Option-cases, inl, inr, ◌>>=◌,
}
use daja_platform.Base.Keeps.{Keeps, Returns-of, Keeps-bind, Keeps-check}
use daja_platform.Base.Rows.{find_row-passes}
use daja_platform.Context.{Uuid}
use daja_platform.Security.Errors.{AppError}
use daja_platform.Sessions.Schema.{Digest, Session, AuthDb, Config, Fresh}
use daja_platform.Sessions.Repository.{
  Claims, new_session, is_revoked, is_over, in_family, revoked, is_claimed, rotated,
  replacement_input, rotate_refresh_session, revoke_session_family, find_active_refresh_session,
}
use daja_platform.Tokens.{Codec, JwtPayload, TokenType, verify_jwt}
use daja_platform.Tokens.Split.{Text}
use daja_platform.Sessions.Principal.{PrincipalInput, build_principal}
use daja_platform.Sessions.Service.{
  answer_refresh, refresh_session, refresh_found, rotate_claimed, refresh_claimed, refresh_verified,
  after_refresh, revoke_after, refresh, claimed_principal, claims_of,
}
use daja_platform.Transactions.{Driver, Pool, run}
use daja_platform.Transactions.Atomicity.{run_keeps}

abbrev pub is_live_in : Uuid → Uuid → Session → Bool
is_live_in org family s = in_family org family s && not (is_revoked s)

-- How many live sessions the family has.
unfoldable pub live_count : Uuid → Uuid → List Session → ℕ
live_count org family [] = 0
live_count org family (s ∷ rest) =
    let n = live_count org family rest in if is_live_in org family s then suc n else n

live_count-rotated :
    (org family id now new : ℕ) (rows : List Session)
    → live_count org family (update_rows (λ s. s.id == id) (rotated now new) rows)
      ≤ live_count org family rows
unfolding live_count
live_count-rotated org family id now new [] = ground arith
live_count-rotated org family id now new (s ∷ rest) =
    ground (arith, live_count-rotated org family id now new rest)

-- It is one less when the session that is found under the id was live.
live_count-rotated_live :
    (org family id now new : ℕ) (current : Session) (rows : List Session)
    → find_row (λ s. s.id == id) rows ≡ some current
    → is_live_in org family current ≡ true
    → suc (live_count org family (update_rows (λ s. s.id == id) (rotated now new) rows))
      ≤ live_count org family rows
unfolding live_count
live_count-rotated_live org family id now new current [] f l = cc
live_count-rotated_live org family id now new current (s ∷ rest) f l =
    elim (Bool-cases (s.id == id)) [
      | inl t ↦
          let e : s ≡ current = ground (arith, t, f) in
          let l' : is_live_in org family s ≡ true =
            subst (λ x. is_live_in org family x ≡ true) (sym e) l in
          ground (arith, t, l', live_count-rotated org family id now new rest)
      | inr n ↦ ground (
        arith,
        n,
        live_count-rotated_live org family id now new current rest (ground (arith, n, f)) l,
      )
    ]

-- What a rotation that returns has found and written.
pub rotate_returns :
    (now id session_id jti expires : ℕ) (hash : Digest) (db : AuthDb) (replacement : Session)
    → (rotate_refresh_session now id session_id hash jti expires db).0 ≡ ok replacement
    → (current : Session) × (find_row (λ s. s.id == session_id) db.sessions ≡ some current)
      × (is_over now current ≡ false)
      × ((rotate_refresh_session now id session_id hash jti expires db).1.sessions
          ≡ update_rows
              (λ s. s.id == current.id)
              (rotated now id)
              (new_session id (replacement_input current hash jti expires) ∷ db.sessions))
unfolding rotate_refresh_session ◌>>=◌
rotate_returns now id session_id jti expires hash db replacement h =
    elim (Option-cases (find_row (λ s. s.id == session_id) db.sessions)) [
      | inl n ↦ ground (arith, n, h)
      | inr (current, f) ↦ (current, f, ground (arith, f, h), ground (arith, f, h))
    ]

-- The session that takes over is in the family of the one that ends.
live_count-replaced :
    (org family now id jti expires : ℕ) (hash : Digest) (current : Session) (rows : List Session)
    → find_row (λ s. s.id == current.id) rows ≡ some current
    → is_over now current ≡ false
    → live_count org family (
        update_rows
          (λ s. s.id == current.id)
          (rotated now id)
          (new_session id (replacement_input current hash jti expires) ∷ rows))
      ≤ live_count org family rows
unfolding live_count
live_count-replaced org family now id jti expires hash current rows f o =
    elim (Bool-cases (in_family org family current)) [
      | inl t ↦
          let live : is_live_in org family current ≡ true = ground (arith, t, o) in
          ground
            (arith, t, live_count-rotated_live org family current.id now id current rows f live)
      | inr n ↦ ground (arith, n, live_count-rotated org family current.id now id rows)
    ]

-- What a search that returns has found; it writes nothing.
pub find_active_returns :
    (now : ℕ) (c : Claims) (db : AuthDb) (s : Session)
    → (find_active_refresh_session now c db).0 ≡ ok s
    → (find_row (is_claimed c) db.sessions ≡ some s)
      × (is_over now s ≡ false)
      × ((find_active_refresh_session now c db).1 ≡ db)
unfolding find_active_refresh_session ◌>>=◌
find_active_returns now c db s h = elim (Option-cases (find_row (is_claimed c) db.sessions)) [
  | inl n ↦ ground (arith, n, h)
  | inr (found, f) ↦ (ground (arith, f, h), ground (arith, f, h), ground (arith, f, h))
]

live_count-revoked :
    (org family org' family' now : ℕ) (reason : String) (rows : List Session)
    → live_count org family (
        update_rows (λ s. in_family org' family' s && not (is_revoked s)) (revoked now reason) rows)
      ≤ live_count org family rows
unfolding live_count
live_count-revoked org family org' family' now reason [] = ground arith
live_count-revoked org family org' family' now reason (s ∷ rest) =
    ground (arith, live_count-revoked org family org' family' now reason rest)

build_principal-sessions :
    (input : PrincipalInput) (db : AuthDb) → (build_principal input db).1.sessions ≡ db.sessions
unfolding build_principal ◌>>=◌
build_principal-sessions input db = ground arith

-- Once the token is rotated, the sessions stay as they are.
pub answer_refresh-sessions :
    (codec : Codec) (hash : Text → Digest) (config : Config) (now : ℕ) (fresh : Fresh) (c : Claims)
    (token : Text) (r : Session) (db : AuthDb)
    → (answer_refresh codec hash config now fresh c token r db).1.sessions ≡ db.sessions
unfolding answer_refresh ◌>>=◌
answer_refresh-sessions codec hash config now fresh c token r db =
    ground (arith, build_principal-sessions (claimed_principal c r.id) db)

module _ (org family n : ℕ) where
  abbrev pub Within : AuthDb → Type 0
  Within db = live_count org family db.sessions ≤ n

  rotate-Within :
      (now id session_id jti expires : ℕ) (hash : Digest)
      → Keeps Within (rotate_refresh_session now id session_id hash jti expires)
  rotate-Within now id session_id jti expires hash = record {
    at = λ db h.
        Returns-of Within (rotate_refresh_session now id session_id hash jti expires db).0
          (rotate_refresh_session now id session_id hash jti expires db).1
          λ replacement e.
            let (current, f, live, after) =
              rotate_returns now id session_id jti expires hash db replacement e in
            let same : current.id ≡ session_id =
              ground (arith, find_row-passes (λ s. s.id == session_id) db.sessions current f) in
            subst (λ rows. live_count org family rows ≤ n) (sym after)
              (omega (
                arith,
                h,
                live_count-replaced org family now id jti expires hash current db.sessions
                    (rw same f) live,
              ));
  }

  find_active-Within : (now : ℕ) (c : Claims) → Keeps Within (find_active_refresh_session now c)
  find_active-Within now c = record {
    at = λ db h.
        Returns-of Within (find_active_refresh_session now c db).0
          (find_active_refresh_session now c db).1
          λ s e. subst Within (sym (find_active_returns now c db s e).2) h;
  }

  answer_refresh-Within :
      (codec : Codec) (hash : Text → Digest) (config : Config) (now : ℕ) (fresh : Fresh)
      (c : Claims) (token : Text) (r : Session)
      → Keeps Within (answer_refresh codec hash config now fresh c token r)
  answer_refresh-Within codec hash config now fresh c token r = record {
    at = λ db h.
        Returns-of Within (answer_refresh codec hash config now fresh c token r db).0
          (answer_refresh codec hash config now fresh c token r db).1
          λ a e.
            subst (λ rows. live_count org family rows ≤ n)
              (sym (answer_refresh-sessions codec hash config now fresh c token r db)) h;
  }

  refresh_session-Within :
      (codec : Codec) (hash : Text → Digest) (config : Config) (now : ℕ) (fresh : Fresh)
      (c : Claims)
      → Keeps Within (refresh_session codec hash config now fresh c)
  unfolding refresh_session refresh_found rotate_claimed
  refresh_session-Within codec hash config now fresh c =
      Keeps-bind Within _ _ (find_active-Within now c) λ s.
        Keeps-bind Within _ _ (Keeps-check Within _) λ t.
          Keeps-bind Within _ _ (rotate-Within now _ _ _ _ _)
            λ r. answer_refresh-Within codec hash config now fresh c t r

  after_refresh-Within :
      {A : Type 0} (catch_fails : Option AppError) (now : ℕ) (c : Claims) (r : Result A)
      (q : Pool AuthDb)
      → Within q.database
      → Within (after_refresh catch_fails now c r q).1.database
  unfolding after_refresh revoke_after revoke_session_family
  after_refresh-Within catch_fails now c (ok a) q h = h
  after_refresh-Within (some f) now c (err e) q h = ground (arith, h)
  after_refresh-Within none now c (err e) q h = ground (
    arith,
    h,
    live_count-revoked org family c.organization_id c.family_id now "refresh_reuse_detected"
        q.database.sessions,
  )

  refresh_claimed-Within :
      (codec : Codec) (hash : Text → Digest) (config : Config) (d : Driver)
      (catch_fails : Option AppError) (now : ℕ) (fresh : Fresh) (c : Option Claims)
      (p : Pool AuthDb)
      → Within p.database
      → Within (refresh_claimed codec hash config d catch_fails now fresh c p).1.database
  unfolding refresh_claimed
  refresh_claimed-Within codec hash config d catch_fails now fresh none p h = h
  refresh_claimed-Within codec hash config d catch_fails now fresh (some c) p h =
      let op = refresh_session codec hash config now fresh c in
      after_refresh-Within catch_fails now c (run d op p).0 (run d op p).1
        (run_keeps Within d op p (refresh_session-Within codec hash config now fresh c) h)

refresh_verified-Within :
    (org family n : ℕ) (codec : Codec) (hash : Text → Digest) (config : Config) (d : Driver)
    (catch_fails : Option AppError) (now : ℕ) (fresh : Fresh) (token : Text)
    (verified : Result JwtPayload) (p : Pool AuthDb)
    → Within org family n p.database
    → Within org family n
        (refresh_verified codec hash config d catch_fails now fresh token verified p).1.database
unfolding refresh_verified
refresh_verified-Within org family n codec hash config d catch_fails now fresh token (err e) p h = h
refresh_verified-Within org family n codec hash config d catch_fails now fresh token (ok payload) p
      h =
    refresh_claimed-Within org family n codec hash config d catch_fails now fresh
      (claims_of payload (hash token)) p h

-- A refresh never leaves a family with more live sessions than it had, whatever the token is,
-- wherever the driver fails, and whether the refresh is answered or refused.
pub refresh-live_count :
    (codec : Codec) (hash : Text → Digest) (config : Config) (d : Driver)
    (catch_fails : Option AppError) (now : ℕ) (fresh : Fresh) (token : Text) (p : Pool AuthDb)
    (org family : Uuid)
    → live_count org family
        (refresh codec hash config d catch_fails now fresh token p).1.database.sessions
      ≤ live_count org family p.database.sessions
unfolding refresh
refresh-live_count codec hash config d catch_fails now fresh token p org family =
    refresh_verified-Within org family (live_count org family p.database.sessions) codec hash config
      d catch_fails now fresh token
      (verify_jwt codec token config.refresh_secret TokenType.refresh (now / 1000)) p (omega arith)
