-- ===== src/Sync/Delivery.antt =====
-- Pushing: the log's invariant, one answer for each event, and pushing again.
use daja_platform.Base.{ℕ, ◌≡◌, Option, none, some, List, [], ◌∷◌, map, Action, ok, arith, ◌>>=◌}
use daja_platform.Base.Keeps.{
  Keeps, Keeps-bind, Keeps-pure, Keeps-gets, Keeps-raise_if, bind_returns, Keeps-modify,
}
use daja_platform.Context.{RequestContext}
use daja_platform.Sync.Schema.{SyncEvent, Store, PushEvent}
use daja_platform.Sync.Sequence.{IsLog, append_server_event-IsLog}
use daja_platform.Transactions.{Driver, Pool, run}
use daja_platform.Transactions.Atomicity.{run_keeps}
use daja_platform.Sync.Push.{
  PushResult, create_conflict, draft_of, push_new, push_found, push_one, push_all, push_batch,
}

create_conflict-IsLog :
    (ctx : RequestContext) (event : PushEvent) (version : ℕ)
    → Keeps IsLog (create_conflict ctx event version)
unfolding create_conflict
create_conflict-IsLog ctx event version = Keeps-bind IsLog _ _ (Keeps-gets IsLog _) (λ id.
    Keeps-bind IsLog _ _
      (Keeps-modify IsLog _
        (λ s l. record { within = l.within; growing = l.growing; keyed = l.keyed }))
      (λ _. Keeps-pure IsLog _))

module _ (materialize : PushEvent → Action Store PushEvent) (ctx : RequestContext) where
  module _ (projects : (event : PushEvent) → Keeps IsLog (materialize event)) where
    push_new-IsLog :
        (event : PushEvent) (stale : Option ℕ) → Keeps IsLog (push_new materialize ctx event stale)
    unfolding push_new
    push_new-IsLog event (some version) =
        Keeps-bind IsLog _ _ (create_conflict-IsLog ctx event version) (λ _. Keeps-pure IsLog _)
    push_new-IsLog event none = Keeps-bind IsLog _ _ (projects event) (λ projected.
        Keeps-bind IsLog _ _ (append_server_event-IsLog ctx (draft_of projected))
          (λ _. Keeps-pure IsLog _))

    push_found-IsLog :
        (event : PushEvent) (known : Option SyncEvent)
        → Keeps IsLog (push_found materialize ctx event known)
    unfolding push_found
    push_found-IsLog event (some known) = Keeps-pure IsLog _
    push_found-IsLog event none =
        Keeps-bind IsLog _ _ (Keeps-gets IsLog _) (λ stale. push_new-IsLog event stale)

    push_one-IsLog : (event : PushEvent) → Keeps IsLog (push_one materialize ctx event)
    unfolding push_one
    push_one-IsLog event =
        Keeps-bind IsLog _ _ (Keeps-gets IsLog _)
          (λ known. Keeps-bind IsLog _ _ (push_found-IsLog event known) (λ _. Keeps-pure IsLog _))

    push_all-IsLog : (events : List PushEvent) → Keeps IsLog (push_all materialize ctx events)
    unfolding push_all
    push_all-IsLog [] = Keeps-pure IsLog _
    push_all-IsLog (event ∷ events) =
        Keeps-bind IsLog _ _ (push_one-IsLog event)
          (λ result. Keeps-bind IsLog _ _ (push_all-IsLog events) (λ _. Keeps-pure IsLog _))

    push_batch-IsLog : (events : List PushEvent) → Keeps IsLog (push_batch materialize ctx events)
    unfolding push_batch
    push_batch-IsLog events =
        Keeps-bind IsLog _ _ (Keeps-raise_if IsLog _ _) (λ _. push_all-IsLog events)

    -- If the projector keeps the log in sequence, then so does a push in its transaction, whatever
    -- its outcome and the driver's failures: no two events of an organization share a revision or
    -- a key, the later of two has the greater revision, and none is above the counter.
    pub run-push_batch-IsLog :
        (d : Driver) (events : List PushEvent) (p : Pool Store)
        → IsLog p.database
        → IsLog (run d (push_batch materialize ctx events) p).1.database
    run-push_batch-IsLog d events p = run_keeps IsLog d _ p (push_batch-IsLog events)

  push_one_id :
      (event : PushEvent) (s : Store) (result : PushResult)
      → (push_one materialize ctx event s).0 ≡ ok result
      → result.event_id ≡ event.event_id
  unfolding push_one ◌>>=◌
  push_one_id event s result h = ground (arith, h)

  -- A push that returns has one result for each event, in the order of the events.
  pub push_all_ids :
      (events : List PushEvent) (s : Store) (results : List PushResult)
      → (push_all materialize ctx events s).0 ≡ ok results
      → map (λ r. r.event_id) results ≡ map (λ e. e.event_id) events
  unfolding push_all
  push_all_ids [] s results h = ground (arith, h)
  push_all_ids (event ∷ events) s results h =
      let (result, first, rest) = bind_returns (push_one materialize ctx event) _ s h in
      let s' = (push_one materialize ctx event s).1 in
      let (more, others, last) = bind_returns (push_all materialize ctx events) _ s' rest in
      ground (arith, last, push_one_id event s result first, push_all_ids events s' more others)
