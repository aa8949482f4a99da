-- ===== src/Sync/Repush.antt =====
-- An event that was applied once is a duplicate ever after.
use daja_platform.Base.{
  ℕ, ◌≡◌, Option, none, some, find_row, Action, ok, arith, ◌>>=◌, inl, inr, Option-cases,
}
use daja_platform.Base.Keeps.{bind_returns, bind_ok}
use daja_platform.Context.{Uuid, RequestContext}
use daja_platform.Sync.Schema.{SyncEvent, Store, PushEvent, Draft}
use daja_platform.Sync.Append.{has_key, find_event, append_server_event}
use daja_platform.Sync.Log.{append_server_event_total}
use daja_platform.Sync.Push.{
  create_conflict, duplicate, applied, draft_of, push_new, push_found, push_one, detect_conflict,
}

abbrev pub known_revision : Uuid → Uuid → Store → Option ℕ
known_revision org key s = elim (find_row (has_key org key) s.events) [
  | none ↦ none
  | some e ↦ some e.revision
]

-- What was appended under a key is found under it.
append_known :
    (ctx : RequestContext) (input : Draft) (s : Store) (key : Uuid) (e : SyncEvent)
    → input.idempotency_key ≡ some key
    → (append_server_event ctx input s).0 ≡ ok e
    → known_revision ctx.organization_id key (append_server_event ctx input s).1 ≡ some e.revision
unfolding find_event
append_known ctx input s key e k h =
    elim (Option-cases (find_event ctx.organization_id input.idempotency_key s)) [
      | inl new ↦
          rw (append_server_event_total ctx input s, new)
            (ground (arith, k, rw (append_server_event_total ctx input s, new) at h))
      | inr (event, old) ↦
          rw (append_server_event_total ctx input s, old)
            (ground (
              arith,
              k,
              rw (k, find_event) at old,
              rw (append_server_event_total ctx input s, old) at h,
            ))
    ]

module _ (materialize : PushEvent → Action Store PushEvent) (ctx : RequestContext) where
  push_new_known :
      (event : PushEvent) (stale : Option ℕ) (s : Store) (revision : ℕ)
      → ((e : PushEvent) (t : Store) (projected : PushEvent)
          → (materialize e t).0 ≡ ok projected
          → projected.idempotency_key ≡ e.idempotency_key)
      → (push_new materialize ctx event stale s).0 ≡ ok (applied revision)
      → known_revision ctx.organization_id event.idempotency_key
          (push_new materialize ctx event stale s).1
        ≡ some revision
  unfolding push_new draft_of
  push_new_known event (some version) s revision keeps_key h =
      let (id, _, last) = bind_returns (create_conflict ctx event version) _ s h in absurd (cc last)
  push_new_known event none s revision keeps_key h =
      let (projected, made, rest) = bind_returns (materialize event) _ s h in
      let t = (materialize event s).1 in
      let (appended, added, last) =
        bind_returns (append_server_event ctx (draft_of projected)) _ t rest in
      rw (bind_ok (materialize event) _ s projected made) (
        rw (bind_ok (append_server_event ctx (draft_of projected)) _ t appended added) (
          ground (
            arith,
            last,
            append_known ctx (draft_of projected) t event.idempotency_key appended
                (ground (arith, keeps_key event s projected made)) added,
          )))

  push_one_known :
      (event : PushEvent) (s : Store) (revision : ℕ)
      → known_revision ctx.organization_id event.idempotency_key s ≡ some revision
      → push_one materialize ctx event s
        ≡ (ok (record { event_id = event.event_id; status = duplicate revision }), s)
  unfolding push_one push_found ◌>>=◌
  push_one_known event s revision h =
      elim (Option-cases (find_row (has_key ctx.organization_id event.idempotency_key) s.events)) [
        | inl e ↦ absurd (ground (arith, e, h))
        | inr (known, e) ↦ ground (arith, e, h)
      ]

  known_after :
      ((e : PushEvent) (t : Store) (projected : PushEvent)
        → (materialize e t).0 ≡ ok projected
        → projected.idempotency_key ≡ e.idempotency_key)
      → (event : PushEvent) (s : Store) (revision : ℕ)
      → (push_one materialize ctx event s).0
        ≡ ok (record { event_id = event.event_id; status = applied revision })
      → known_revision ctx.organization_id event.idempotency_key
          (push_one materialize ctx event s).1
        ≡ some revision
  unfolding push_one push_found ◌>>=◌
  known_after keeps_key event s revision h =
      elim (Option-cases (find_row (has_key ctx.organization_id event.idempotency_key) s.events)) [
        | inl e ↦ ground (
          arith,
          e,
          h,
          push_new_known event (detect_conflict ctx.organization_id event s) s revision keeps_key,
        )
        | inr (known, e) ↦ absurd (ground (arith, e, h))
      ]

  -- If the projector returns events under the key that they came with, then an event whose push
  -- was applied is answered as a duplicate with the same revision when it is pushed again, and
  -- that changes nothing.
  pub push_one_again :
      ((e : PushEvent) (t : Store) (projected : PushEvent)
        → (materialize e t).0 ≡ ok projected
        → projected.idempotency_key ≡ e.idempotency_key)
      → (event : PushEvent) (s : Store) (revision : ℕ)
      → (push_one materialize ctx event s).0
        ≡ ok (record { event_id = event.event_id; status = applied revision })
      → let s' = (push_one materialize ctx event s).1 in
        push_one materialize ctx event s'
        ≡ (ok (record { event_id = event.event_id; status = duplicate revision }), s')
  push_one_again keeps_key event s revision h =
      push_one_known event (push_one materialize ctx event s).1 revision
        (known_after keeps_key event s revision h)
