-- ===== src/Context.antt =====
-- packages/shared/src/index.ts: who makes a request. An id is a uuid text that the program only
-- compares, so a number stands for it; the request schemas admit no empty text there.
use daja_platform.Base.{ℕ, String, Bool, List, Option, none, some, ◌==◌}

abbrev pub Uuid : Type 0
Uuid = ℕ

-- `T | null | undefined`
pub data Optional (A : Type 0) : Type 0 where
  undefined null : Optional A
  value : A → Optional A

pub data Scope : Type 0 where
  location all_locations : Scope

pub record Grant : Type 0 where
  pub permission : String
  pub scope : Scope
  pub location_id : Option Uuid

pub record RequestContext : Type 0 where
  pub organization_id : Uuid
  pub user_id : Uuid
  pub device_id : Option Uuid
  pub location_id : Option Uuid
  pub permissions : List String
  pub scoped_grants : List Grant
  pub is_owner : Bool

-- `a === b` on ids that may be null
abbrev pub same_id : Option Uuid → Option Uuid → Bool
same_id none none = Bool.true
same_id (some a) (some b) = a == b
same_id _ _ = Bool.false

-- `x !== undefined`
abbrev pub is_given : {A : Type 0} → Optional A → Bool
is_given Optional.undefined = Bool.false
is_given _ = Bool.true

-- `x ?? null`
abbrev pub or_null : {A : Type 0} → Optional A → Option A
or_null (Optional.value a) = some a
or_null _ = none

abbrev pub or_else : {A : Type 0} → Option A → Option A → Option A
or_else (some a) _ = some a
or_else none b = b
