-- ===== src/Sessions/Cards.antt =====
-- apps/api/src/auth.service.ts: `bindNfcCard` and `identifyNfcCard`. The hash of the PIN is an
-- argument, and so is the test of a user's row against the address that was given.
use daja_platform.Base.{
  Bool, true, false, not, Option, none, some, List, [], ◌∷◌, ◌&&◌, ◌||◌, ◌==◌, any, find_row,
  where_rows, update_rows, Action, gets, modify, raise_if, or_raise, ◌>>=◌, ◌>>◌,
}
use daja_platform.Context.{Uuid}
use daja_platform.Security.Errors.{resource_not_found, resource_conflict, other_error}
use daja_platform.Access.Policy.{User}
use daja_platform.Tokens.Split.{Text}
use daja_platform.Sessions.Schema.{Card, AuthDb}

abbrev pub is_active_card : Uuid → Uuid → Card → Bool
is_active_card org user c =
    c.organization_id == org && c.user_id == user && c.active && not c.revoked

-- The unique indexes: one card under a `card_id`, and one active card of a user.
abbrev pub is_clash : Card → Card → Bool
is_clash c d =
    c.card_id == d.card_id
    || (is_active_card c.organization_id c.user_id d && c.active && not c.revoked)

unfoldable pub has_clash : List Card → Bool
has_clash [] = false
has_clash (c ∷ cs) = any (is_clash c) cs || has_clash cs

-- A write to the table, which the indexes may refuse.
unfoldable pub store_cards : (List Card → List Card) → Action AuthDb (Unit {0})
unfolding has_clash
store_cards f = do
  cards ← gets λ db. f db.cards
  raise_if (has_clash cards) (other_error "23505")
  modify (λ db. record db { cards = cards })

abbrev pub rebound : Text → Card → Card
rebound pin_hash c = record c {
  active = true;
  revoked = false;
  pin_hash = pin_hash;
  failed_pin_attempts = 0;
  locked_until = none;
}

abbrev pub new_card : Uuid → Uuid → Uuid → Uuid → Text → Card
new_card id org user card_id pin_hash = record {
  id = id;
  organization_id = org;
  user_id = user;
  card_id = card_id;
  pin_hash = pin_hash;
  failed_pin_attempts = 0;
  locked_until = none;
  active = true;
  revoked = false;
}

unfoldable pub bind_found :
    Uuid → Uuid → Uuid → Uuid → Text → Option Card → Action AuthDb (Unit {0})
unfolding store_cards
bind_found id org user card_id pin_hash (some card) = do
  raise_if (not (card.user_id == user)) (resource_conflict "Kartica je već povezana")
  store_cards (update_rows (λ c. c.id == card.id) (rebound pin_hash))
bind_found id org user card_id pin_hash none = do
  store_cards
      (update_rows (is_active_card org user) (λ c. record c { active = false; revoked = true }))
  store_cards (λ cards. new_card id org user card_id pin_hash ∷ cards)

abbrev pub is_addressed : (User → Bool) → Uuid → User → Bool
is_addressed has_email org u = has_email u && u.organization_id == org && u.active

-- The one row of a result.
abbrev pub single : {A : Type 0} → List A → Option A
single (a ∷ []) = some a
single _ = none

unfoldable pub bind_nfc_card : (User → Bool) → Uuid → Uuid → Uuid → Text → Action AuthDb (Unit {0})
unfolding bind_found
bind_nfc_card has_email id org card_id pin_hash = do
  users ← gets λ db. where_rows (is_addressed has_email org) db.policy.users
  user ← or_raise (single users) (resource_not_found "aktivan korisnik sa tom e-adresom")
  occupied ← gets λ db. find_row (λ c. c.card_id == card_id) db.cards
  bind_found id org user.id card_id pin_hash occupied

-- Whether the card is recognized.
unfoldable pub identify_nfc_card : Uuid → AuthDb → Bool
identify_nfc_card card_id db =
    any
      (λ c.
        c.card_id == card_id
        && c.active
        && not c.revoked
        && any (λ u. u.id == c.user_id && u.active) db.policy.users)
      db.cards
