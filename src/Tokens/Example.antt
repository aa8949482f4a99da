-- ===== src/Tokens/Example.antt =====
-- A codec that is small enough to run, and a secret that is long enough.
use daja_platform.Base.{
  ℕ, suc, zero, ◌+◌, ◌-◌, false, Option, none, some, [], ◌∷◌, ◌==◌, if◌then◌else◌,
}
use daja_platform.Context.{Optional}
use daja_platform.Tokens.{TokenType, JwtPayload, Header, Codec, our_header}
use daja_platform.Tokens.Split.{Text}

-- Codes above the dot for ids and times.
abbrev write_option : Option ℕ → ℕ
write_option none = 0
write_option (some n) = n + 47

abbrev read_option : ℕ → Option ℕ
read_option n = if n == 0 then none else some (n - 47)

abbrev write_type : Option TokenType → ℕ
write_type none = 0
write_type (some TokenType.access) = 1
write_type (some TokenType.refresh) = 2

abbrev read_type : ℕ → Option TokenType
read_type n =
    if n == 1 then some TokenType.access else if n == 2 then some TokenType.refresh else none

abbrev write : JwtPayload → Text
write p =
    write_type p.typ
    ∷ write_option p.sub
    ∷ write_option p.org
    ∷ write_option p.jti
    ∷ write_option p.fam
    ∷ write_option p.dev
    ∷ write_option p.sid
    ∷ write_option p.iat
    ∷ write_option p.exp
    ∷ []

abbrev pub read : Text → Option JwtPayload
read (typ ∷ sub ∷ org ∷ jti ∷ fam ∷ dev ∷ sid ∷ iat ∷ exp ∷ []) = some record {
  typ = read_type typ;
  sub = read_option sub;
  org = read_option org;
  jti = read_option jti;
  fam = read_option fam;
  dev = read_option dev;
  sid = read_option sid;
  parent_customer_id = Optional.undefined;
  parent_customer_family_id = Optional.undefined;
  parent_is_google = false;
  iat = read_option iat;
  exp = read_option exp;
}
read _ = none

abbrev read_our : Text → Option Header
read_our (c ∷ []) = some our_header
read_our _ = none

abbrev pub total : Text → ℕ
total [] = 0
total (c ∷ cs) = c + total cs

abbrev pub small_codec : Codec
small_codec = record {
  write_header = λ h. 1 ∷ [];
  read_header = read_our;
  write_payload = write;
  read_payload = read;
  sign = λ k x. (total k + total x + 47) ∷ [];
}

abbrev pub repeated : ℕ → Text
repeated zero = []
repeated (suc n) = 7 ∷ repeated n

abbrev pub long_secret : Text
long_secret = repeated 32
