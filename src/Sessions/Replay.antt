-- ===== src/Sessions/Replay.antt =====
-- A refresh token that is presented a second time ends its family.
use mathlib.Core.Path.{subst}
use daja_platform.Base.{
  ℕ, ◌/◌, ◌≡◌, refl, sym, ap, String, true, false, not, Option, none, some, List, [], ◌∷◌, ◌&&◌,
  ◌==◌, find_row, update_rows, Result, ok, err, Action, check, ◌∙◌, arith, ◌>>=◌,
}
use daja_platform.Base.Keeps.{bind_returns, bind_ok, and_then_returns}
use daja_platform.Base.Rows.{find_row-passes, find_row-update_rows}
use daja_platform.Security.Errors.{AppError}
use daja_platform.Transactions.{Driver, Pool, run}
use daja_platform.Transactions.Atomicity.{run_refused, run_returns}
use daja_platform.Tokens.{Codec, TokenType, JwtPayload, read_token, check_payload, verify_jwt}
use daja_platform.Tokens.Split.{Text}
use daja_platform.Tokens.RoundTrip.{check_payload-returns}
use daja_platform.Sessions.Schema.{Digest, Session, AuthDb, Config, Fresh}
use daja_platform.Sessions.Repository.{
  Claims, is_claimed, is_revoked, in_family, revoked, rotated, new_session, replacement_input,
  find_active_refresh_session, revoke_session_family, rotate_refresh_session,
}
use daja_platform.Sessions.Service.{
  AuthenticatedStaff, bad_token, claims_of, refresh_session, refresh_found, rotate_claimed,
  answer_refresh, refresh_claimed, refresh_verified, refresh, after_refresh, revoke_after,
  sign_refresh, refresh_expiry,
}
use daja_platform.Sessions.Rotation.{
  live_count, find_active_returns, rotate_returns, answer_refresh-sessions,
}

-- The time only decides whether a token is accepted, not what it says.
verify_jwt-same :
    (codec : Codec) (token secret : Text) (t : TokenType) (now later : ℕ) (p q : JwtPayload)
    → verify_jwt codec token secret t now ≡ ok p
    → verify_jwt codec token secret t later ≡ ok q
    → p ≡ q
unfolding verify_jwt
verify_jwt-same codec token secret t now later p q h k =
    let (x, read, checked) =
      and_then_returns (read_token codec token secret) (check_payload t now) h in
    let (y, read', checked') =
      and_then_returns (read_token codec token secret) (check_payload t later) k in
    let e = (check_payload-returns t now x p checked).0 in
    let e' = (check_payload-returns t later y q checked').0 in ground (arith, e, e', read, read')

live_count-family :
    (org family now : ℕ) (reason : String) (rows : List Session)
    → live_count org family
        (update_rows (λ s. in_family org family s && not (is_revoked s)) (revoked now reason) rows)
      ≡ 0
unfolding live_count
live_count-family org family now reason [] = refl
live_count-family org family now reason (s ∷ rest) =
    ground (arith, live_count-family org family now reason rest)

-- A token whose session is over is refused.
find_active-over :
    (now : ℕ) (c : Claims) (db : AuthDb) (s : Session)
    → find_row (is_claimed c) db.sessions ≡ some s
    → is_revoked s ≡ true
    → (find_active_refresh_session now c db).0 ≡ err bad_token
unfolding find_active_refresh_session ◌>>=◌
find_active-over now c db s f o = ground (arith, f, o)

-- The new session comes under another jti, so the token still names the old one.
claimed_after :
    (now id jti expires : ℕ) (hash : Digest) (c : Claims) (current old : Session)
    (rows : List Session)
    → find_row (is_claimed c) rows ≡ some current
    → old.id ≡ current.id
    → (jti == c.refresh_jti) ≡ false
    → find_row (is_claimed c) (
        update_rows
          (λ s. s.id == old.id)
          (rotated now id)
          (new_session id (replacement_input old hash jti expires) ∷ rows))
      ≡ some (rotated now id current)
claimed_after now id jti expires hash c current old rows found same differ =
    let rest =
      find_row-update_rows (is_claimed c) (λ s. s.id == old.id) (rotated now id) (λ a. refl) rows
        current found in
    ground (arith, rest, same, differ)

module _ (codec : Codec) (hash : Text → Digest) (config : Config) where
  refresh_session-refused :
      (now : ℕ) (fresh : Fresh) (c : Claims) (db : AuthDb)
      → (find_active_refresh_session now c db).0 ≡ err bad_token
      → (refresh_session codec hash config now fresh c db).0 ≡ err bad_token
  unfolding refresh_session ◌>>=◌
  refresh_session-refused now fresh c db h = rw h refl

  rotate_claimed_returns :
      (now : ℕ) (fresh : Fresh) (c : Claims) (current : Session) (token : Text) (db : AuthDb)
      (a : AuthenticatedStaff)
      → (rotate_claimed codec hash config now fresh c current token db).0 ≡ ok a
      → (old : Session) × (find_row (λ s. s.id == current.id) db.sessions ≡ some old)
        × ((rotate_claimed codec hash config now fresh c current token db).1.sessions
            ≡ update_rows
                (λ s. s.id == old.id)
                (rotated now fresh.session_id)
                (new_session fresh.session_id (
                    replacement_input old
                      (hash token)
                      fresh.refresh_jti
                      (refresh_expiry codec hash config now))
                  ∷ db.sessions))
  unfolding rotate_claimed
  rotate_claimed_returns now fresh c current token db a h =
      let m : Action AuthDb Session =
        rotate_refresh_session now fresh.session_id current.id (hash token) fresh.refresh_jti
          (refresh_expiry codec hash config now) in
      let f : Session → Action AuthDb AuthenticatedStaff =
        answer_refresh codec hash config now fresh c token in
      let (r, rotates, _) = bind_returns m f db h in
      let (old, found, _, written) =
        rotate_returns now fresh.session_id current.id fresh.refresh_jti
          (refresh_expiry codec hash config now) (hash token) db r rotates in
      (
        old,
        found,
        ap (λ o. o.1.sessions) (bind_ok m f db r rotates)
            ∙ answer_refresh-sessions codec hash config now fresh c token r (m db).1
            ∙ written,
      )

  refresh_found_returns :
      (now : ℕ) (fresh : Fresh) (c : Claims) (current : Session) (db : AuthDb)
      (a : AuthenticatedStaff)
      → (refresh_found codec hash config now fresh c current db).0 ≡ ok a
      → (token : Text) × ((rotate_claimed codec hash config now fresh c current token db).0 ≡ ok a)
        × (refresh_found codec hash config now fresh c current db
            ≡ rotate_claimed codec hash config now fresh c current token db)
  unfolding refresh_found
  refresh_found_returns now fresh c current db a h =
      let m : Action AuthDb Text = check (λ _.
        sign_refresh codec hash config now c.organization_id c.user_id c.device_id c.family_id
          fresh.refresh_jti) in
      let f : Text → Action AuthDb AuthenticatedStaff =
        rotate_claimed codec hash config now fresh c current in
      let (token, signs, rest) = bind_returns m f db h in (token, rest, bind_ok m f db token signs)

  refresh_session_returns :
      (now : ℕ) (fresh : Fresh) (c : Claims) (db : AuthDb) (a : AuthenticatedStaff)
      → (refresh_session codec hash config now fresh c db).0 ≡ ok a
      → (current : Session) × (find_row (is_claimed c) db.sessions ≡ some current)
        × ((refresh_found codec hash config now fresh c current db).0 ≡ ok a)
        × (refresh_session codec hash config now fresh c db
            ≡ refresh_found codec hash config now fresh c current db)
  unfolding refresh_session
  refresh_session_returns now fresh c db a h =
      let m : Action AuthDb Session = find_active_refresh_session now c in
      let f : Session → Action AuthDb AuthenticatedStaff =
        refresh_found codec hash config now fresh c in
      let (current, finds, rest) = bind_returns m f db h in
      let (found, _, same) = find_active_returns now c db current finds in
      (
        current,
        found,
        subst (λ x. (f current x).0 ≡ ok a) same rest,
        bind_ok m f db current finds ∙ ap (f current) same,
      )

  -- After a refresh the session that the token names is revoked.
  refresh_session-claimed :
      (now : ℕ) (fresh : Fresh) (c : Claims) (db : AuthDb) (a : AuthenticatedStaff)
      → (refresh_session codec hash config now fresh c db).0 ≡ ok a
      → (fresh.refresh_jti == c.refresh_jti) ≡ false
      → (s : Session) × (find_row
            (is_claimed c)
            (refresh_session codec hash config now fresh c db).1.sessions
          ≡ some s)
        × (is_revoked s ≡ true)
  refresh_session-claimed now fresh c db a h differ =
      let (current, found, next, e) = refresh_session_returns now fresh c db a h in
      let (token, last, e') = refresh_found_returns now fresh c current db a next in
      let (old, again, written) = rotate_claimed_returns now fresh c current token db a last in
      let same : old.id ≡ current.id =
        ground (arith, find_row-passes (λ s. s.id == current.id) db.sessions old again) in
      let after =
        claimed_after now fresh.session_id fresh.refresh_jti (refresh_expiry codec hash config now)
          (hash token) c current old db.sessions found same differ in
      (
        rotated now fresh.session_id current,
        ap (λ o. find_row (is_claimed c) o.1.sessions) (e ∙ e')
            ∙ ap (find_row (is_claimed c)) written
            ∙ after,
        refl,
      )

  refresh_verified_returns :
      (d : Driver) (f : Option AppError) (now : ℕ) (fresh : Fresh) (token : Text)
      (verified : Result JwtPayload) (p : Pool AuthDb) (a : AuthenticatedStaff)
      → (refresh_verified codec hash config d f now fresh token verified p).0 ≡ ok a
      → (payload : JwtPayload) × (verified ≡ ok payload)
  unfolding refresh_verified
  refresh_verified_returns d f now fresh token (err e) p a h = cc
  refresh_verified_returns d f now fresh token (ok payload) p a h = (payload, refl)

  refresh_returns :
      (d : Driver) (f : Option AppError) (now : ℕ) (fresh : Fresh) (token : Text) (p : Pool AuthDb)
      (a : AuthenticatedStaff)
      → (refresh codec hash config d f now fresh token p).0 ≡ ok a
      → (payload : JwtPayload) × (verify_jwt codec token config.refresh_secret TokenType.refresh
            (now / 1000)
          ≡ ok payload)
  unfolding refresh
  refresh_returns d f now fresh token p a h = refresh_verified_returns d f now fresh token _ p a h

  after_refresh_returns :
      {A : Type 0} (f : Option AppError) (now : ℕ) (c : Claims) (r : Result A) (q : Pool AuthDb)
      (a : A)
      → (after_refresh f now c r q).0 ≡ ok a
      → (r ≡ ok a) × (after_refresh f now c r q ≡ (ok a, q))
  unfolding after_refresh revoke_after
  after_refresh_returns f now c (ok x) q a h = (h, rw h refl)
  after_refresh_returns (some x) now c (err e) q a h = ground (arith, h)
  after_refresh_returns none now c (err e) q a h = ground (arith, h)

  -- A transaction that was answered has revoked the session that its token names.
  refresh_claimed_returns :
      (d : Driver) (f : Option AppError) (now : ℕ) (fresh : Fresh) (c : Claims) (p : Pool AuthDb)
      (a : AuthenticatedStaff)
      → (refresh_claimed codec hash config d f now fresh (some c) p).0 ≡ ok a
      → (fresh.refresh_jti == c.refresh_jti) ≡ false
      → (s : Session) × (find_row
            (is_claimed c)
            (refresh_claimed codec hash config d f now fresh (some c) p).1.database.sessions
          ≡ some s)
        × (is_revoked s ≡ true)
  unfolding refresh_claimed
  refresh_claimed_returns d f now fresh c p a h differ =
      let op = refresh_session codec hash config now fresh c in
      let (ran, e) = after_refresh_returns f now c (run d op p).0 (run d op p).1 a h in
      let done = run_returns d op p a ran in
      let (s, found, over) =
        refresh_session-claimed now fresh c p.database a (ap (λ o. o.0) done) differ in
      (
        s,
        ap (λ o. find_row (is_claimed c) o.1.database.sessions) e
            ∙ sym (ap (λ o. find_row (is_claimed c) o.1.sessions) done)
            ∙ found,
        over,
      )

  refresh_claimed-over :
      (d : Driver) (now : ℕ) (fresh : Fresh) (c : Claims) (p : Pool AuthDb) (s : Session)
      → d.connect ≡ none
      → d.begin_fails ≡ none
      → find_row (is_claimed c) p.database.sessions ≡ some s
      → is_revoked s ≡ true
      → ((refresh_claimed codec hash config d none now fresh (some c) p).0 ≡ err bad_token)
        × (live_count c.organization_id c.family_id
              (refresh_claimed codec hash config d none now fresh (some c) p).1.database.sessions
            ≡ 0)
  unfolding refresh_claimed after_refresh revoke_after revoke_session_family
  refresh_claimed-over d now fresh c p s connects begins found over =
      let op = refresh_session codec hash config now fresh c in
      let refused = run_refused d op p bad_token connects begins (
        refresh_session-refused now fresh c p.database
          (find_active-over now c p.database s found over)) in
      (
        rw refused refl,
        rw refused (
            live_count-family c.organization_id c.family_id now "refresh_reuse_detected"
              (run d op p).1.database.sessions),
      )

  refresh-claimed :
      (d : Driver) (f : Option AppError) (now : ℕ) (fresh : Fresh) (token : Text) (p : Pool AuthDb)
      (payload : JwtPayload) (c : Claims)
      → verify_jwt codec token config.refresh_secret TokenType.refresh (now / 1000) ≡ ok payload
      → claims_of payload (hash token) ≡ some c
      → refresh codec hash config d f now fresh token p
        ≡ refresh_claimed codec hash config d f now fresh (some c) p
  unfolding refresh refresh_verified
  refresh-claimed d f now fresh token p payload c v k =
      ap (λ x. refresh_verified codec hash config d f now fresh token x p) v
      ∙ ap (λ x. refresh_claimed codec hash config d f now fresh x p) k

  -- After a refresh was answered, under a jti that the token does not have, the same token, while it
  -- still verifies, is refused when it is presented again to a driver that connects, begins, and
  -- runs the statement after the transaction; and then no session of its family is live, the one
  -- that the first refresh handed out included.
  pub refresh-replayed :
      (d d' : Driver) (f : Option AppError) (now later : ℕ) (fresh fresh' : Fresh) (token : Text)
      (p : Pool AuthDb) (a : AuthenticatedStaff) (payload : JwtPayload) (c : Claims)
      → (refresh codec hash config d f now fresh token p).0 ≡ ok a
      → verify_jwt codec token config.refresh_secret TokenType.refresh (later / 1000) ≡ ok payload
      → claims_of payload (hash token) ≡ some c
      → (fresh.refresh_jti == c.refresh_jti) ≡ false
      → d'.connect ≡ none
      → d'.begin_fails ≡ none
      → ((refresh codec hash config d' none later fresh' token
            (refresh codec hash config d f now fresh token p).1).0
          ≡ err bad_token)
        × (live_count c.organization_id c.family_id
              (refresh codec hash config d' none later fresh' token
                (refresh codec hash config d f now fresh token p).1).1.database.sessions
            ≡ 0)
  refresh-replayed d d' f now later fresh fresh' token p a payload c h verifies claims differ
        connects begins =
      let (q, was) = refresh_returns d f now fresh token p a h in
      let same =
        verify_jwt-same codec token config.refresh_secret TokenType.refresh (later / 1000)
          (now / 1000) payload q verifies was in
      let first = refresh-claimed d f now fresh token p payload c (was ∙ ap ok (sym same)) claims in
      let (s, found, over) =
        refresh_claimed_returns d f now fresh c p a (sym (ap (λ o. o.0) first) ∙ h) differ in
      let after : Pool AuthDb = (refresh codec hash config d f now fresh token p).1 in
      let kept = ap (λ o. find_row (is_claimed c) o.1.database.sessions) first ∙ found in
      let refused = refresh_claimed-over d' later fresh' c after s connects begins kept over in
      let second = refresh-claimed d' none later fresh' token after payload c verifies claims in
      (
        ap (λ o. o.0) second ∙ refused.0,
        ap (λ o. live_count c.organization_id c.family_id o.1.database.sessions) second ∙ refused.1,
      )
