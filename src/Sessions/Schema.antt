-- ===== src/Sessions/Schema.antt =====
-- The tables behind staff sessions, and the configuration of the tokens. Times are in
-- milliseconds. A digest is a text that the program only compares, so a number stands for it.
use daja_platform.Base.{ℕ, String, Bool, Option, List}
use daja_platform.Context.{Uuid}
use daja_platform.Access.Policy.{Policy}
use daja_platform.Tokens.Split.{Text}

abbrev pub Digest : Type 0
Digest = ℕ

-- device_sessions
pub record Session : Type 0 where
  pub id : Uuid
  pub family_id : Uuid
  pub organization_id : Uuid
  pub user_id : Uuid
  pub device_id : Uuid
  pub refresh_token_hash : Option Digest
  pub refresh_jti : Option Uuid
  pub expires_at : ℕ
  pub revoked_at : Option ℕ
  pub revoked_reason : Option String
  pub replaced_by : Option Uuid

-- devices
pub record StaffDevice : Type 0 where
  pub id : Uuid
  pub organization_id : Uuid
  pub user_id : Uuid
  pub display_name : String
  pub device_type : String
  pub active : Bool
  pub revoked : Bool
  pub deleted : Bool
  pub offline_until : ℕ

-- staff_nfc_cards
pub record Card : Type 0 where
  pub id : Uuid
  pub organization_id : Uuid
  pub user_id : Uuid
  pub card_id : Uuid
  pub pin_hash : Text
  pub failed_pin_attempts : ℕ
  pub locked_until : Option ℕ
  pub active : Bool
  pub revoked : Bool

-- customer_sessions, as far as staff tokens read it
pub record CustomerSession : Type 0 where
  pub organization_id : Uuid
  pub customer_id : Uuid
  pub family_id : Uuid
  pub revoked : Bool
  pub expires_at : ℕ

-- organization_access_policies
pub record PolicyVersion : Type 0 where
  pub organization_id : Uuid
  pub policy_version : ℕ

-- audit_events on sessions
pub record AuthEvent : Type 0 where
  pub organization_id : Uuid
  pub user_id : Uuid
  pub device_id : Uuid
  pub session_id : Uuid
  pub operation : String

pub record AuthDb : Type 0 where
  pub sessions : List Session
  pub devices : List StaffDevice
  pub cards : List Card
  pub customer_sessions : List CustomerSession
  pub policy : Policy
  pub policy_versions : List PolicyVersion
  pub audit : List AuthEvent

pub record Config : Type 0 where
  pub access_secret : Text
  pub refresh_secret : Text
  pub access_ttl : ℕ
  pub refresh_ttl : ℕ

-- What `randomUUID` and the tables' defaults give to one request.
pub record Fresh : Type 0 where
  pub session_id : Uuid
  pub family_id : Uuid
  pub refresh_jti : Uuid
  pub access_jti : Uuid
