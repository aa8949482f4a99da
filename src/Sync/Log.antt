-- ===== src/Sync/Log.antt =====
-- The log as `appendServerEvent` writes it: it never fails, numbers the events of an
-- organization without reuse, and stores at most one event for each key.
use mathlib.Core.Option
use daja_platform.Base.{
  Bool-cases, ℕ, ◌+◌, ◌≡◌, ◌≢◌, refl, none, some, List, [], ◌∷◌, ◌==◌, if◌then◌else◌, find_row,
  update_rows, ok, arith, ◌>>=◌, inl, inr,
}
use daja_platform.Context.{Uuid, RequestContext}
use daja_platform.Sync.Schema.{Revision, SyncEvent, Store, Draft}
use daja_platform.Sync.Append.{
  of_organization, ensure_row, advance, drafted, map_sync_event, append_new, find_event,
  append_server_event,
}

-- The revision that an organization has reached; 0 before its first event.
unfoldable pub current_of : Uuid → List Revision → ℕ
current_of org [] = 0
current_of org (r ∷ rs) = if of_organization org r then r.current else current_of org rs

abbrev pub bumped : Uuid → List Revision → List Revision
bumped org rs = update_rows (of_organization org) advance (ensure_row org rs)

next_row :
    (org : Uuid) (rs : List Revision)
    → Option.map (λ r. r.current) (find_row (of_organization org) (bumped org rs))
      ≡ some (current_of org rs + 1)
unfolding current_of
next_row org [] = ground arith
next_row org (r ∷ rs) = ground (arith, next_row org rs)

-- Advancing one organization leaves the others alone.
current_of-advance_ne :
    (org other : Uuid) (rs : List Revision)
    → org ≢ other
    → current_of other (update_rows (of_organization org) advance rs) ≡ current_of other rs
unfolding current_of
current_of-advance_ne org other [] h = refl
current_of-advance_ne org other (r ∷ rs) h = elim (Bool-cases (of_organization org r)) [
  | inl e ↦ rw e (ground (arith, e, current_of-advance_ne org other rs h))
  | inr e ↦ rw e (ground (arith, e, current_of-advance_ne org other rs h))
]

pub current_of-bumped :
    (org other : Uuid) (rs : List Revision)
    → current_of other (bumped org rs)
      ≡ (if org == other then current_of org rs + 1 else current_of other rs)
unfolding current_of
current_of-bumped org other [] = ground arith
current_of-bumped org other (r ∷ rs) = elim (Bool-cases (of_organization org r)) [
  | inl e ↦ rw e (ground (arith, e, current_of-advance_ne org other rs))
  | inr e ↦ rw (e, e) (ground (arith, e, current_of-bumped org other rs))
]

module _ (ctx : RequestContext) (input : Draft) (s : Store) where
  abbrev pub new_event : SyncEvent
  new_event = drafted ctx input (current_of ctx.organization_id s.revisions + 1) s.made

  abbrev pub appended : Store
  appended = record s {
    revisions = bumped ctx.organization_id s.revisions;
    events = new_event ∷ s.events;
    made = s.made + 1;
  }

  pub append_new_writes : append_new ctx input s ≡ (ok (map_sync_event new_event), appended)
  unfolding append_new ◌>>=◌
  append_new_writes = ground (arith, next_row ctx.organization_id s.revisions)

  -- Appending never raises: it returns the event that is stored under the key, if there is one,
  -- and changes nothing; and else stores a new event with the organization's next revision.
  pub append_server_event_total :
      append_server_event ctx input s
      ≡ elim (find_event ctx.organization_id input.idempotency_key s) [
        | some event ↦ (ok (map_sync_event event), s)
        | none ↦ (ok (map_sync_event new_event), appended)
      ]
  unfolding append_server_event
  append_server_event_total = ground (arith, append_new_writes)
