-- ===== src/Sync/Paging.antt =====
-- The pages of a pull, one after the other, are the whole log: nothing is lost or sent twice.
use daja_platform.Base.{
  ℕ, zero, suc, ◌+◌, String, ◌≤◌, ◌<◌, ◌≡◌, ◌∙◌, sym, ap, refl, Bool, true, false, not, List, [],
  ◌∷◌, ◌++◌, All, ◌&&◌, ◌==◌, ltb, where_rows, take, drop, take-append-drop, length-take-suc,
  length, is_empty, map, ok, arith, inl, inr, Bool-cases,
}
use native.Mathlib.Numerals.{add-one}
use daja_platform.Context.{Uuid, RequestContext}
use daja_platform.Sync.Schema.{SyncEvent, Store}
use daja_platform.Sync.Append.{map_sync_event}
use daja_platform.Sync.Sequence.{IsLog, Growing, Precedes}
use daja_platform.Sync.Pull.{
  selects, insert_event, by_revision, log_of, rows_after, last_revision, Page, restrict,
  sync_locations, pull,
}

abbrev pub After : ℕ → SyncEvent → Type 0
After n f = n < f.revision

abbrev pub Ascending : List SyncEvent → Type 0
Ascending [] = Unit
Ascending (e ∷ es) = All (After e.revision) es × Ascending es

insert-After :
    (n : ℕ) (e : SyncEvent) (fs : List SyncEvent)
    → n < e.revision
    → All (After n) fs
    → All (After n) (insert_event e fs)
unfolding insert_event
insert-After n e [] h hs = (h, tt)
insert-After n e (f ∷ fs) h hs = ground (arith, insert-After n e fs h hs.1)

insert-Ascending :
    (e : SyncEvent) (fs : List SyncEvent)
    → All (λ f. f.revision < e.revision) fs
    → Ascending fs
    → Ascending (insert_event e fs)
unfolding insert_event
insert-Ascending e [] h a = (tt, tt)
insert-Ascending e (f ∷ fs) h a =
    ground (arith, h.0, insert-After f.revision e fs h.0 a.0, insert-Ascending e fs h.1 a.1)

insert-Before :
    (n : ℕ) (e : SyncEvent) (fs : List SyncEvent)
    → e.revision < n
    → All (λ f. f.revision < n) fs
    → All (λ f. f.revision < n) (insert_event e fs)
unfolding insert_event
insert-Before n e [] h hs = (h, tt)
insert-Before n e (f ∷ fs) h hs = ground (arith, insert-Before n e fs h hs.1)

by_revision-Before :
    (n : ℕ) (fs : List SyncEvent)
    → All (λ f. f.revision < n) fs
    → All (λ f. f.revision < n) (by_revision fs)
unfolding by_revision
by_revision-Before n [] h = tt
by_revision-Before n (f ∷ fs) h =
    insert-Before n f (by_revision fs) h.0 (by_revision-Before n fs h.1)

abbrev of_org : Uuid → SyncEvent → Bool
of_org org e = e.organization_id == org

own_before :
    (org : Uuid) (e : SyncEvent) (es : List SyncEvent)
    → e.organization_id ≡ org
    → All (Precedes e) es
    → All (λ f. f.revision < e.revision) (where_rows (of_org org) es)
own_before org e [] h p = tt
own_before org e (f ∷ es) h p = elim (Bool-cases (of_org org f)) [
  | inl own ↦ rw own (p.0 (ground (arith, own, h)), own_before org e es h p.1)
  | inr other ↦ rw other (own_before org e es h p.1)
]

log-Ascending :
    (org : Uuid) (es : List SyncEvent)
    → Growing es
    → Ascending (by_revision (where_rows (of_org org) es))
unfolding by_revision
log-Ascending org [] h = tt
log-Ascending org (e ∷ es) h = elim (Bool-cases (of_org org e)) [
  | inl own ↦ rw own (
      insert-Ascending e (by_revision (where_rows (of_org org) es))
        (by_revision-Before e.revision (where_rows (of_org org) es)
          (own_before org e es (ground (arith, own)) h.0))
        (log-Ascending org es h.1))
  | inr other ↦ rw other (log-Ascending org es h.1)
]

module _ (ctx : RequestContext) where
  rows_after_same :
      (a b : ℕ) (es : List SyncEvent)
      → All (After a) es
      → All (After b) es
      → rows_after ctx a es ≡ rows_after ctx b es
  unfolding rows_after
  rows_after_same a b [] h k = refl
  rows_after_same a b (e ∷ es) h k = elim (Bool-cases (selects ctx e)) [
    | inl t ↦ ground (arith, t, h.0, k.0, rows_after_same a b es h.1 k.1)
    | inr f ↦ ground (arith, f, rows_after_same a b es h.1 k.1)
  ]

  After-trans : (a b : ℕ) (es : List SyncEvent) → a ≤ b → All (After b) es → All (After a) es
  After-trans a b [] h k = tt
  After-trans a b (e ∷ es) h k = (omega (arith, k.0), After-trans a b es h k.1)

  last_revision-ge :
      (n after : ℕ) (es : List SyncEvent)
      → Ascending es
      → after ≤ last_revision after (take n (rows_after ctx after es))
  unfolding last_revision rows_after
  last_revision-ge zero after es a = omega arith
  last_revision-ge (suc n) after [] a = omega arith
  last_revision-ge (suc n) after (e ∷ es) a =
      elim (Bool-cases (selects ctx e && ltb after e.revision)) [
        | inl t ↦
            let beyond = After-trans after e.revision es (ground (arith, t)) a.0 in
            rw (t, rows_after_same after e.revision es beyond a.0)
              (ground (arith, t, last_revision-ge n e.revision es a.1))
        | inr f ↦ rw f (last_revision-ge (suc n) after es a.1)
      ]

  skip_head :
      (n : ℕ) (e : SyncEvent) (es : List SyncEvent)
      → e.revision ≤ n
      → rows_after ctx n (e ∷ es) ≡ rows_after ctx n es
  unfolding rows_after
  skip_head n e es h = elim (Bool-cases (selects ctx e)) [
    | inl t ↦ ground (arith, t, h)
    | inr f ↦ ground (arith, f)
  ]

  take_head :
      (after : ℕ) (e : SyncEvent) (es : List SyncEvent)
      → (selects ctx e && ltb after e.revision) ≡ true
      → All (After e.revision) es
      → rows_after ctx after (e ∷ es) ≡ e ∷ rows_after ctx e.revision es
  unfolding rows_after
  take_head after e es t a =
      let beyond = After-trans after e.revision es (ground (arith, t)) a in
      rw t (ap (λ r. e ∷ r) (rows_after_same after e.revision es beyond a))

  pass_head :
      (after n : ℕ) (e : SyncEvent) (es : List SyncEvent)
      → (selects ctx e && ltb after e.revision) ≡ false
      → after ≤ n
      → rows_after ctx n (e ∷ es) ≡ rows_after ctx n es
  unfolding rows_after
  pass_head after n e es f h = elim (Bool-cases (selects ctx e)) [
    | inl t ↦ ground (arith, t, f, h)
    | inr k ↦ ground (arith, k)
  ]

  next_page :
      (n after : ℕ) (es : List SyncEvent)
      → Ascending es
      → rows_after ctx (last_revision after (take n (rows_after ctx after es))) es
        ≡ drop n (rows_after ctx after es)
  unfolding last_revision
  next_page zero after es a = refl
  next_page (suc n) after [] a = unfold rows_after in refl
  next_page (suc n) after (e ∷ es) a = elim (Bool-cases (selects ctx e && ltb after e.revision)) [
    | inl t ↦ rw (take_head after e es t a.0) (
        skip_head (last_revision e.revision (take n (rows_after ctx e.revision es))) e es
          (last_revision-ge n e.revision es a.1)
        ∙ next_page n e.revision es a.1)
    | inr f ↦ rw (pass_head after after e es f (omega arith)) (
        pass_head after (last_revision after (take (suc n) (rows_after ctx after es))) e es f
          (last_revision-ge (suc n) after es a.1)
        ∙ next_page (suc n) after es a.1)
  ]

last_revision-map :
    (after : ℕ) (es : List SyncEvent)
    → last_revision after (map map_sync_event es) ≡ last_revision after es
unfolding last_revision
last_revision-map after [] = refl
last_revision-map after (e ∷ es) = last_revision-map e.revision es

take-take-suc : {A : Type 0} (n : ℕ) (xs : List A) → take n (take (suc n) xs) ≡ take n xs
take-take-suc zero xs = refl
take-take-suc (suc n) [] = refl
take-take-suc (suc n) (x ∷ xs) = ap (λ r. x ∷ r) (take-take-suc n xs)

module _ (id_text : Uuid → String) (ctx : RequestContext) (after limit : ℕ) (s : Store)
    (page : Page) where
  abbrev pub log : List SyncEvent
  log = log_of ctx.organization_id s

  abbrev result : List SyncEvent
  result = take (limit + 1) (rows_after ctx after log)

  pull-result :
      pull id_text ctx after limit s ≡ ok page
      → (page.events
          ≡ restrict id_text (sync_locations ctx) (map map_sync_event (take limit result)))
        × (page.next_revision ≡ last_revision after (map map_sync_event (take limit result)))
        × (page.has_more ≡ ltb limit (length result))
  unfolding pull
  pull-result h = ground (arith, h)

  abbrev sent : List SyncEvent
  sent = take limit (rows_after ctx after log)

  take-result : take limit result ≡ sent
  take-result = rw add-one (take-take-suc limit (rows_after ctx after log))

  rest_of :
      IsLog s
      → rows_after ctx (last_revision after sent) log ≡ drop limit (rows_after ctx after log)
  unfolding log_of
  rest_of l = next_page ctx limit after log (log-Ascending ctx.organization_id s.events l.growing)

  next_of : pull id_text ctx after limit s ≡ ok page → page.next_revision ≡ last_revision after sent
  next_of h =
      (pull-result h).1
      ∙ last_revision-map after (take limit result)
      ∙ ap (last_revision after) take-result

  -- If the log is in sequence, the page that a pull returns holds the first `limit` of the events
  -- that it selects after its start, as the caller may see them; pulling on from its last revision
  -- selects exactly the others; and `hasMore` says if there are any.
  pub pull_pages :
      IsLog s
      → pull id_text ctx after limit s ≡ ok page
      → (page.events ≡ restrict id_text (sync_locations ctx) (map map_sync_event sent))
        × (rows_after ctx after log ≡ sent ++ rows_after ctx page.next_revision log)
        × (page.has_more ≡ not (is_empty (rows_after ctx page.next_revision log)))
  pull_pages l h = (
    (pull-result h).0
        ∙ ap (λ r. restrict id_text (sync_locations ctx) (map map_sync_event r)) take-result,
    rw (next_of h, rest_of l) (sym (take-append-drop limit (rows_after ctx after log))),
    rw (next_of h, rest_of l)
        ((pull-result h).2 ∙ rw add-one (length-take-suc limit (rows_after ctx after log))),
  )
