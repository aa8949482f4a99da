-- ===== src/Tokens/RoundTrip.antt =====
-- A token that was signed verifies until it expires, and whatever verifies carries our signature.
use mathlib.Core.List.{append_assoc}
use daja_platform.Base.{
  ℕ, ◌≡◌, refl, sym, ◌<◌, ◌≤◌, ◌+◌, true, false, some, List, [], ◌∷◌, ◌++◌, ◌&&◌, ltb, length, ok,
  arith, Bool-cases, inl, inr,
}
use daja_platform.Base.Keeps.{and_then_returns}
use daja_platform.Tokens.{
  TokenType, JwtPayload, Codec, Header, our_header, is_present, has_type, assert_secret, join,
  dated, unsigned, sign_jwt, is_ours, read_parts, read_token, is_expired, check_payload, verify_jwt,
}
use daja_platform.Tokens.Split.{
  Text, dot, same_text, same_text-eq, same_text_refl, split_dots, has_no_dot, split_dots_word,
  split_dots-append, joined, joined-split,
}

-- The three parts come back from a token.
split_dots-token :
    (header body signature : Text)
    → has_no_dot header ≡ true
    → has_no_dot body ≡ true
    → has_no_dot signature ≡ true
    → split_dots (join (join header body) signature) ≡ header ∷ body ∷ signature ∷ []
split_dots-token header body signature h b s =
    rw
      (
        append_assoc header (dot ∷ body) (dot ∷ signature),
        split_dots-append header (body ++ dot ∷ signature) h,
        split_dots-append body signature b,
        split_dots_word signature s,
      )
      refl

check_payload-valid :
    (expected : TokenType) (now e : ℕ) (p : JwtPayload)
    → (has_type expected p.typ && is_present p.sub && is_present p.org && is_present p.jti) ≡ true
    → p.exp ≡ some e
    → now < e
    → check_payload expected now p ≡ ok p
unfolding check_payload
check_payload-valid expected now e p valid ee later = ground (arith, valid, ee, later)

pub check_payload-returns :
    (expected : TokenType) (now : ℕ) (q p : JwtPayload)
    → check_payload expected now q ≡ ok p
    → (q ≡ p) × (has_type expected p.typ ≡ true) × (is_expired p.exp now ≡ false)
unfolding check_payload
check_payload-returns expected now q p h = (ground (arith, h), ground (arith, h), ground (arith, h))

module _ (codec : Codec) where
  read_token-parts :
      (secret token : Text) (p : JwtPayload)
      → ltb (length secret) 32 ≡ false
      → length token ≤ 8192
      → read_parts codec secret (split_dots token) ≡ ok p
      → read_token codec token secret ≡ ok p
  unfolding read_token assert_secret
  read_token-parts secret token p long short h = ground (arith, long, short, h)

  token-sign_jwt :
      (payload : JwtPayload) (secret token : Text) (ttl now : ℕ)
      → sign_jwt codec payload secret ttl now ≡ ok token
      → (ltb (length secret) 32 ≡ false)
        × (token
            ≡ join
                (unsigned codec (dated payload ttl now))
                (codec.sign secret (unsigned codec (dated payload ttl now))))
  unfolding sign_jwt assert_secret
  token-sign_jwt payload secret token ttl now h = elim (Bool-cases (ltb (length secret) 32)) [
    | inl t ↦ ground (arith, t, h)
    | inr n ↦ ground (arith, n, h)
  ]

  read_parts-signed :
      (secret header body : Text) (h : Header) (p : JwtPayload)
      → codec.read_header header ≡ some h
      → is_ours (some h) ≡ true
      → codec.read_payload body ≡ some p
      → read_parts codec secret (header ∷ body ∷ codec.sign secret (join header body) ∷ []) ≡ ok p
  unfolding read_parts
  read_parts-signed secret header body h p eh ours ep =
      rw (same_text_refl (codec.sign secret (join header body)), eh, ours, ep) refl

  -- A token signed under a secret of 32 characters or more, at most 8192 characters long, with the
  -- type asked for, a subject, an organization and a jti, is verified at every time before its end
  -- and gives its payload with the times of issue and end. Of node's codec it is assumed that our
  -- header and this payload are read as they were written, and that encoded texts hold no dot.
  pub verify_jwt-sign_jwt :
      (payload : JwtPayload) (secret token : Text) (expected : TokenType) (ttl now later : ℕ)
      → codec.read_header (codec.write_header our_header) ≡ some our_header
      → codec.read_payload (codec.write_payload (dated payload ttl now))
        ≡ some (dated payload ttl now)
      → has_no_dot (codec.write_header our_header) ≡ true
      → has_no_dot (codec.write_payload (dated payload ttl now)) ≡ true
      → ((k x : Text) → has_no_dot (codec.sign k x) ≡ true)
      → sign_jwt codec payload secret ttl now ≡ ok token
      → length token ≤ 8192
      → (has_type expected payload.typ
          && is_present payload.sub
          && is_present payload.org
          && is_present payload.jti)
        ≡ true
      → later < now + ttl
      → verify_jwt codec token secret expected later ≡ ok (dated payload ttl now)
  unfolding verify_jwt
  verify_jwt-sign_jwt payload secret token expected ttl now later rh rp dh dp ds signed short valid
        before =
      let (long, e) = token-sign_jwt payload secret token ttl now signed in
      let body : JwtPayload = dated payload ttl now in
      let h : Text = codec.write_header our_header in
      let b : Text = codec.write_payload body in
      let parts =
        split_dots-token h b (codec.sign secret (join h b)) dh dp (ds secret (join h b)) in
      let read =
        read_token-parts secret token body long short
          (rw (e, parts, read_parts-signed secret h b our_header body rh refl rp) refl) in
      rw (read, check_payload-valid expected later (now + ttl) body valid refl before) refl

  read_token-returns :
      (secret token : Text) (p : JwtPayload)
      → read_token codec token secret ≡ ok p
      → read_parts codec secret (split_dots token) ≡ ok p
  unfolding read_token assert_secret
  read_token-returns secret token p h = ground (arith, h)

  read_parts-returns :
      (secret token : Text) (parts : List Text) (p : JwtPayload)
      → joined parts ≡ token
      → read_parts codec secret parts ≡ ok p
      → (header : Text) × (body : Text) × (token
          ≡ join header (join body (codec.sign secret (join header body))))
        × (codec.read_payload body ≡ some p)
  unfolding read_parts joined
  read_parts-returns secret token [] p e h = cc
  read_parts-returns secret token (x ∷ []) p e h = cc
  read_parts-returns secret token (x ∷ y ∷ []) p e h = cc
  read_parts-returns secret token (x ∷ y ∷ z ∷ w ∷ ws) p e h = cc
  read_parts-returns secret token (header ∷ body ∷ signature ∷ []) p e h =
      let expected : Text = codec.sign secret (join header body) in
      let fits : same_text signature expected ≡ true = ground (arith, h) in
      (header, body, rw (sym e, sym (same_text-eq signature expected fits)) refl, ground (arith, h))

  -- Whatever `verify_jwt` returns was signed under this secret: the token is a header, a payload and
  -- our signature of these two, the payload is the one that was read, its type is the one that was
  -- asked for, and it has not expired.
  pub verify_jwt-returns :
      (token secret : Text) (expected : TokenType) (now : ℕ) (p : JwtPayload)
      → verify_jwt codec token secret expected now ≡ ok p
      → ((header : Text) × (body : Text) × (token
            ≡ join header (join body (codec.sign secret (join header body))))
          × (codec.read_payload body ≡ some p))
        × (has_type expected p.typ ≡ true)
        × (is_expired p.exp now ≡ false)
  unfolding verify_jwt
  verify_jwt-returns token secret expected now p h =
      let (q, read, checked) =
        and_then_returns (read_token codec token secret) (check_payload expected now) h in
      let (same, typed, live) = check_payload-returns expected now q p checked in
      let parts = read_token-returns secret token q read in
      (
        read_parts-returns secret token (split_dots token) p (joined-split token)
            (rw (sym same) parts),
        typed,
        live,
      )
