-- ===== src/Tokens/Tests.antt =====
-- Tokens under the small codec.
use daja_platform.Base.{ℕ, ◌+◌, ◌≡◌, refl, true, false, none, some, [], ◌∷◌, Result, ok, err, arith}
use daja_platform.Context.{Optional}
use daja_platform.Security.Errors.{invalid_token}
use daja_platform.Tokens.{
  TokenType, JwtPayload, Header, Codec, our_header, sign_jwt, verify_jwt, dated, join, has_type,
  is_expired,
}
use daja_platform.Tokens.Split.{Text, has_no_dot}
use daja_platform.Tokens.Example.{small_codec, long_secret, read, total}
use daja_platform.Tokens.RoundTrip.{verify_jwt-sign_jwt, verify_jwt-returns}

abbrev payload : JwtPayload
payload = record {
  typ = some TokenType.access;
  sub = some 3;
  org = some 1;
  jti = some 90;
  fam = some 8;
  dev = some 4;
  sid = some 5;
  parent_customer_id = Optional.undefined;
  parent_customer_family_id = Optional.undefined;
  parent_is_google = false;
  iat = none;
  exp = none;
}

abbrev token_text : Result Text → Text
token_text (ok t) = t
token_text (err e) = []

abbrev token : Text
token = token_text (sign_jwt small_codec payload long_secret 900 1000)

-- It expires at 1900.
expired :
    verify_jwt small_codec token long_secret TokenType.access 1900
    ≡ err (invalid_token "Authentication token has expired")
unfolding verify_jwt sign_jwt daja_platform.Tokens.Split.split_dots
    daja_platform.Tokens.Split.same_text daja_platform.Tokens.same_type
expired = refl

verifies :
    verify_jwt small_codec token long_secret TokenType.access 1899 ≡ ok (dated payload 900 1000)
unfolding verify_jwt sign_jwt daja_platform.Tokens.Split.split_dots
    daja_platform.Tokens.Split.same_text daja_platform.Tokens.same_type
verifies = refl

above_dot : (n : ℕ) → has_no_dot ((n + 47) ∷ []) ≡ true
above_dot n = ground arith

verify_jwt-sign_jwt_example :
    verify_jwt small_codec token long_secret TokenType.access 1899 ≡ ok (dated payload 900 1000)
unfolding sign_jwt daja_platform.Tokens.same_type
verify_jwt-sign_jwt_example =
    verify_jwt-sign_jwt small_codec payload long_secret token TokenType.access 900 1000 1899 refl
      refl refl refl (λ k x. above_dot (total k + total x)) refl (omega arith) refl (omega arith)

abbrev Sound : Type 0
Sound =
    ((header : Text) × (body : Text) × (token
        ≡ join header (join body (small_codec.sign long_secret (join header body))))
      × (read body ≡ some (dated payload 900 1000)))
    × (has_type TokenType.access (dated payload 900 1000).typ ≡ true)
    × (is_expired (dated payload 900 1000).exp 1899 ≡ false)

verify_jwt-returns_example : Sound
verify_jwt-returns_example =
    verify_jwt-returns small_codec token long_secret TokenType.access 1899 (dated payload 900 1000)
      verifies
