-- ===== src/Access/Authorized.antt =====
-- A pushed command that is authorized is one that its author may give at every place it names.
use daja_platform.Base.{
  ◌≡◌, String, true, false, none, some, List, [], ◌∷◌, All, is_empty, ok, arith, inl, inr,
  Option-cases,
}
use daja_platform.Base.Rows.{All-any}
use daja_platform.Context.{Uuid, RequestContext}
use daja_platform.Json.{get_field}
use daja_platform.Sync.Schema.{PushEvent}
use daja_platform.Access.Commands.{
  Layout, differs, payload_of, permissions_for, required_for, locations_for, allows_place,
  authorize_command, authorize_sync_event,
}

module _ (id_text : Uuid → String) (ctx : RequestContext) where
  -- One of the permissions is held, and granted, at each place; or everywhere if none is named.
  pub record MayGive (required : List String) (places : List String) : Type 0 where
    pub at_places : All (λ place. allows_place id_text ctx required (some place) ≡ true) places
    pub without_place : is_empty places ≡ true → allows_place id_text ctx required none ≡ true

  command_allowed :
      (required places : List String)
      → ctx.is_owner ≡ false
      → authorize_command id_text ctx required places ≡ ok tt
      → MayGive required places
  unfolding authorize_command
  command_allowed required [] o h = record {
    at_places = tt;
    without_place = λ _. ground (arith, o, h);
  }
  command_allowed required (place ∷ places) o h = record {
    at_places =
        All-any (λ p. allows_place id_text ctx required (some p)) (place ∷ places)
          (ground (arith, o, h));
    without_place = λ e. ground (arith, e);
  }

  pub record IsAuthorized (layout : Layout) (event : PushEvent) : Type 0 where
    pub permissions : List String
    pub own_organization :
        differs (id_text ctx.organization_id) (get_field "organizationId" (payload_of event))
        ≡ false
    pub own_user :
        differs (id_text ctx.user_id) (get_field "actorUserId" (payload_of event)) ≡ false
    pub known : permissions_for event ≡ some permissions
    pub allowed :
        MayGive
          (required_for event permissions)
          (locations_for id_text ctx.organization_id layout event)

  -- An event of a caller who is no owner passes only if it names no other organization and no
  -- other author, its command is known, and the caller holds one of the permissions that the
  -- command needs at each location that the event names or its warehouse lies at, and at all
  -- locations if there is none.
  pub authorize_sync_event-IsAuthorized :
      (layout : Layout) (event : PushEvent)
      → ctx.is_owner ≡ false
      → authorize_sync_event id_text ctx layout event ≡ ok tt
      → IsAuthorized layout event
  unfolding authorize_sync_event
  authorize_sync_event-IsAuthorized layout event o h = elim (Option-cases (permissions_for event)) [
    | inl unknown ↦ absurd (ground (arith, h, unknown))
    | inr (permissions, known) ↦ record {
      permissions = permissions;
      own_organization = ground (arith, h);
      own_user = ground (arith, h);
      known = known;
      allowed =
          command_allowed (required_for event permissions)
            (locations_for id_text ctx.organization_id layout event) o (ground (arith, h, known));
    }
  ]
