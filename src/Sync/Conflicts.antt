-- ===== src/Sync/Conflicts.antt =====
-- packages/database/src/sync.ts: `listConflicts`, less its order, and `resolveConflict`.
use daja_platform.Base.{
  ℕ, ◌≡◌, refl, String, Bool, true, false, not, Option, none, some, List, [], ◌∷◌, ◌&&◌, ◌==◌,
  length, take, where_rows, update_rows, map, Action, err, gets, modify, raise_if, ◌>>=◌, ◌>>◌,
  arith, Bool-cases, inl, inr,
}
use daja_platform.Context.{Uuid, RequestContext}
use daja_platform.Json.{Json, redact_credentials}
use daja_platform.Security.Errors.{tenant_access_denied}
use daja_platform.Sync.Schema.{Conflict, ConflictStatus, unresolved, resolved, rejected, Store}

abbrev pub same_status : ConflictStatus → ConflictStatus → Bool
same_status unresolved unresolved = true
same_status resolved resolved = true
same_status rejected rejected = true
same_status _ _ = false

-- The two outcomes that a request may ask for.
pub data Verdict : Type 0 where
  resolve reject : Verdict

abbrev pub status_of : Verdict → ConflictStatus
status_of resolve = resolved
status_of reject = rejected

abbrev pub status_or_unresolved : Option ConflictStatus → ConflictStatus
status_or_unresolved none = unresolved
status_or_unresolved (some s) = s

abbrev pub shown : Conflict → Conflict
shown c = record c { client_payload = redact_credentials c.client_payload }

unfoldable pub list_conflicts : Uuid → Option ConflictStatus → ℕ → Store → List Conflict
list_conflicts org status limit s = map shown (
    take limit (
      where_rows
        (λ c. c.organization_id == org && same_status c.status (status_or_unresolved status))
        s.conflicts))

abbrev pub is_open : Uuid → Uuid → Conflict → Bool
is_open org id c = c.organization_id == org && c.id == id && same_status c.status unresolved

abbrev pub settled : RequestContext → Verdict → Json → String → Conflict → Conflict
settled ctx verdict resolution reason c = record c {
  status = status_of verdict;
  resolution = some (redact_credentials resolution);
  reason = reason;
  resolved_by = some ctx.user_id;
}

-- The UPDATE, and its row count.
unfoldable pub resolve_conflict :
    RequestContext → Uuid → Verdict → Json → String → Action Store (Unit {0})
resolve_conflict ctx id verdict resolution reason = do
  count ← gets (λ s. length (where_rows (is_open ctx.organization_id id) s.conflicts))
  modify (λ s. record s {
    conflicts =
        update_rows (is_open ctx.organization_id id) (settled ctx verdict resolution reason)
          s.conflicts;
  })
  raise_if (not (count == 1)) tenant_access_denied

none_open :
    (ctx : RequestContext) (id : Uuid) (verdict : Verdict) (resolution : Json) (reason : String)
    (rows : List Conflict)
    → length (
        where_rows (is_open ctx.organization_id id) (
          update_rows
            (is_open ctx.organization_id id)
            (settled ctx verdict resolution reason)
            rows))
      ≡ 0
none_open ctx id verdict resolution reason [] = refl
none_open ctx id resolve resolution reason (c ∷ rows) =
    elim (Bool-cases (is_open ctx.organization_id id c)) [
      | inl e ↦ rw e (ground (arith, none_open ctx id resolve resolution reason rows))
      | inr e ↦ rw (e, e) (none_open ctx id resolve resolution reason rows)
    ]
none_open ctx id reject resolution reason (c ∷ rows) =
    elim (Bool-cases (is_open ctx.organization_id id c)) [
      | inl e ↦ rw e (ground (arith, none_open ctx id reject resolution reason rows))
      | inr e ↦ rw (e, e) (none_open ctx id reject resolution reason rows)
    ]

-- A conflict is settled at most once: after any attempt to resolve it, every later attempt by
-- anyone of the same organization is denied, whatever either of them asks for.
pub resolve_conflict_once :
    (ctx later : RequestContext) (id : Uuid) (verdict other : Verdict) (resolution again : Json)
    (reason why : String) (s : Store)
    → later.organization_id ≡ ctx.organization_id
    → (resolve_conflict later id other again why
        (resolve_conflict ctx id verdict resolution reason s).1).0
      ≡ err tenant_access_denied
unfolding resolve_conflict ◌>>=◌
resolve_conflict_once ctx later id verdict other resolution again reason why s same =
    rw same (ground (arith, none_open ctx id verdict resolution reason s.conflicts))
