-- ===== src/Tokens.antt =====
-- packages/security/src/jwt.ts: signed tokens. A text is a list of character codes. The JSON texts
-- in base64url and the keyed hash belong to node: a `Codec` holds them.
pub mod Split
pub mod RoundTrip
pub mod Example
mod Tests
use daja_platform.Base.{
  ℕ, ◌+◌, String, Bool, true, false, not, Option, none, some, List, [], ◌∷◌, ◌++◌, ◌&&◌, ◌||◌, ◌==◌,
  ltb, leb, str_eq, if◌then◌else◌, length, Result, ok, err, guard, and_then,
}
use daja_platform.Context.{Uuid, Optional}
use daja_platform.Security.Errors.{invalid_token}
use daja_platform.Tokens.Split.{Text, dot, split_dots, same_text}

pub data TokenType : Type 0 where
  access refresh : TokenType

pub record Header : Type 0 where
  pub alg : String
  pub typ : String

-- What the program reads of a payload. A key that is absent or empty, or that holds a value of
-- another type, is `none`.
pub record JwtPayload : Type 0 where
  pub typ : Option TokenType
  pub sub : Option Uuid
  pub org : Option Uuid
  pub jti : Option Uuid
  pub fam : Option Uuid
  pub dev : Option Uuid
  pub sid : Option Uuid
  -- `null` is here a value that is not a text
  pub parent_customer_id : Optional Uuid
  pub parent_customer_family_id : Optional Uuid
  pub parent_is_google : Bool
  pub iat : Option ℕ
  pub exp : Option ℕ

-- `base64UrlEncode(JSON.stringify(…))`, `parseJson`, and `sign`
pub record Codec : Type 0 where
  pub write_header : Header → Text
  pub read_header : Text → Option Header
  pub write_payload : JwtPayload → Text
  pub read_payload : Text → Option JwtPayload
  pub sign : Text → Text → Text

unfoldable pub same_type : TokenType → TokenType → Bool
same_type access access = true
same_type refresh refresh = true
same_type _ _ = false

abbrev pub is_present : Option Uuid → Bool
is_present none = false
is_present (some id) = true

abbrev pub has_type : TokenType → Option TokenType → Bool
has_type expected none = false
has_type expected (some t) = same_type t expected

unfoldable pub assert_secret : Text → Result (Unit {0})
assert_secret secret =
    guard (not (ltb (length secret) 32))
      (invalid_token "JWT secret must be configured with at least 32 characters")

abbrev pub join : Text → Text → Text
join a b = a ++ dot ∷ b

abbrev pub our_header : Header
our_header = record { alg = "HS256"; typ = "JWT" }

-- The payload that is signed.
abbrev pub dated : JwtPayload → ℕ → ℕ → JwtPayload
dated payload ttl now = record payload { iat = some now; exp = some (now + ttl) }

abbrev pub is_ours : Option Header → Bool
is_ours none = false
is_ours (some h) = str_eq h.alg "HS256" && str_eq h.typ "JWT"

-- `typeof exp !== 'number' || exp <= now`
abbrev pub is_expired : Option ℕ → ℕ → Bool
is_expired none now = true
is_expired (some e) now = leb e now

unfoldable pub check_payload : TokenType → ℕ → JwtPayload → Result JwtPayload
check_payload expected now p =
    if not (has_type expected p.typ && is_present p.sub && is_present p.org && is_present p.jti)
    then err (invalid_token "Invalid authentication token")
    else if is_expired p.exp now
    then err (invalid_token "Authentication token has expired")
    else ok p

module _ (codec : Codec) where
  abbrev pub unsigned : JwtPayload → Text
  unsigned body = join (codec.write_header our_header) (codec.write_payload body)

  -- `now` is in seconds.
  unfoldable pub sign_jwt : JwtPayload → Text → ℕ → ℕ → Result Text
  unfolding assert_secret
  sign_jwt payload secret ttl now = and_then (assert_secret secret) λ _. ok (
      join (unsigned (dated payload ttl now))
        (codec.sign secret (unsigned (dated payload ttl now))))

  -- The three parts, with a signature that fits and a header of ours.
  unfoldable pub read_parts : Text → List Text → Result JwtPayload
  read_parts secret (header ∷ body ∷ signature ∷ []) =
      if not (same_text signature (codec.sign secret (join header body)))
      then err (invalid_token "Invalid authentication token")
      else if not (is_ours (codec.read_header header))
      then err (invalid_token "Invalid authentication token")
      else elim (codec.read_payload body) [
        | none ↦ err (invalid_token "Invalid authentication token")
        | some payload ↦ ok payload
      ]
  read_parts secret _ = err (invalid_token "Invalid authentication token")

  unfoldable pub read_token : Text → Text → Result JwtPayload
  unfolding assert_secret read_parts
  read_token token secret = and_then (assert_secret secret) λ _.
      and_then
        (guard (not (ltb 8192 (length token))) (invalid_token "Invalid authentication token"))
        λ _. read_parts secret (split_dots token)

  unfoldable pub verify_jwt : Text → Text → TokenType → ℕ → Result JwtPayload
  unfolding read_token check_payload
  verify_jwt token secret expected now =
      and_then (read_token token secret) (check_payload expected now)
