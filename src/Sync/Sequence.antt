-- ===== src/Sync/Sequence.antt =====
-- The invariant of the log: an organization's revisions only grow, no two of its events share one,
-- and no two share a key.
use daja_platform.Base.{
  ◌≤◌, ◌<◌, ◌≡◌, Bool, false, none, some, List, [], ◌∷◌, All, find_row, arith, inl, inr, Bool-cases,
  Option-cases,
}
use daja_platform.Base.Keeps.{Keeps}
use daja_platform.Context.{RequestContext}
use daja_platform.Sync.Schema.{Revision, SyncEvent, Store, Draft}
use daja_platform.Sync.Append.{has_key, find_event, append_server_event}
use daja_platform.Sync.Log.{
  current_of, current_of-bumped, appended, new_event, append_server_event_total,
}

abbrev pub Within : List Revision → SyncEvent → Type 0
Within rs e = e.revision ≤ current_of e.organization_id rs

-- `f` was stored before `e`.
abbrev pub Precedes : SyncEvent → SyncEvent → Type 0
Precedes e f = f.organization_id ≡ e.organization_id → f.revision < e.revision

abbrev pub same_key : SyncEvent → SyncEvent → Bool
same_key e f = elim e.idempotency_key [ none ↦ false | some key ↦ has_key e.organization_id key f ]

abbrev pub Growing : List SyncEvent → Type 0
Growing [] = Unit
Growing (e ∷ es) = All (Precedes e) es × Growing es

abbrev pub Keyed : List SyncEvent → Type 0
Keyed [] = Unit
Keyed (e ∷ es) = All (λ f. same_key e f ≡ false) es × Keyed es

pub record IsLog (s : Store) : Type 0 where
  pub within : All (Within s.revisions) s.events
  pub growing : Growing s.events
  pub keyed : Keyed s.events

All-map :
    {A : Type 0} {P Q : A → Type 0} (f : (a : A) → P a → Q a) (xs : List A) → All P xs → All Q xs
All-map f [] h = tt
All-map f (x ∷ xs) h = (f x h.0, All-map f xs h.1)

All-of : {A : Type 0} {P : A → Type 0} (f : (a : A) → P a) (xs : List A) → All P xs
All-of f [] = tt
All-of f (x ∷ xs) = (f x, All-of f xs)

not_found :
    {A : Type 0} (p : A → Bool) (xs : List A) → find_row p xs ≡ none → All (λ x. p x ≡ false) xs
not_found p [] h = tt
not_found p (x ∷ xs) h = elim (Bool-cases (p x)) [
  | inl e ↦ absurd (ground (arith, h, e))
  | inr e ↦ (e, not_found p xs (ground (arith, h, e)))
]

module _ (ctx : RequestContext) (input : Draft) (s : Store) where
  fresh_key :
      find_event ctx.organization_id input.idempotency_key s ≡ none
      → All (λ f. same_key (new_event ctx input s) f ≡ false) s.events
  unfolding find_event
  fresh_key h = elim (Option-cases input.idempotency_key) [
    | inl e ↦ All-of (λ f. ground (arith, e)) s.events
    | inr (key, e) ↦
        All-map (λ f p. ground (arith, e, p)) s.events
          (not_found (has_key ctx.organization_id key) s.events (rw (e, find_event) at h))
  ]

  appended-IsLog :
      find_event ctx.organization_id input.idempotency_key s ≡ none
      → IsLog s
      → IsLog (appended ctx input s)
  appended-IsLog h l = record {
    within = (
      ground (arith, current_of-bumped ctx.organization_id ctx.organization_id s.revisions),
      All-map
          (λ e p.
            ground (arith, p, current_of-bumped ctx.organization_id e.organization_id s.revisions))
          s.events l.within,
    );
    growing = (All-map (λ e p same. ground (arith, p, same)) s.events l.within, l.growing);
    keyed = (fresh_key h, l.keyed);
  }

-- Appending keeps the log in sequence.
pub append_server_event-IsLog :
    (ctx : RequestContext) (input : Draft) → Keeps IsLog (append_server_event ctx input)
append_server_event-IsLog ctx input = record {
  at = λ s l. elim (Option-cases (find_event ctx.organization_id input.idempotency_key s)) [
    | inl e ↦ rw (append_server_event_total ctx input s, e) (appended-IsLog ctx input s e l)
    | inr (event, e) ↦ rw (append_server_event_total ctx input s, e) l
  ];
}
