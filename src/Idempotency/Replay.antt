-- ===== src/Idempotency/Replay.antt =====
-- A request that was answered is not handled again.
use daja_platform.Base.{
  true, ◌≡◌, ◌≢◌, refl, Option, none, some, List, [], ◌∷◌, ◌==◌, find_row, update_rows, Result, ok,
  err, Action, arith, inl, inr, Bool-cases,
}
use daja_platform.Context.{Uuid}
use daja_platform.Json.{Json, null, bool, number, text, array, object}
use daja_platform.Security.Errors.{idempotency_conflict}
use daja_platform.Idempotency.{
  Entry, new_entry, Database, Response, Reply, is_entry, stored_payload, complete, replay_of,
  settle, handle, run,
}

find-update :
    (org key : Uuid) (f : Entry → Entry)
    → ((e : Entry) → is_entry org key e ≡ true → is_entry org key (f e) ≡ true)
    → (entries : List Entry) (e : Entry) → find_row (is_entry org key) entries ≡ some e
    → find_row (is_entry org key) (update_rows (is_entry org key) f entries) ≡ some (f e)
find-update org key f same [] e h = cc
find-update org key f same (x ∷ entries) e h = elim (Bool-cases (is_entry org key x)) [
  | inl t ↦ rw t (ground (arith, t, h, same x t))
  | inr n ↦ rw (n, n) (find-update org key f same entries e (rw n at h))
]

stored_some : (v : Json) → v ≢ null → stored_payload v ≡ some v
stored_some null h = absurd (h refl)
stored_some (bool b) h = refl
stored_some (number n) h = refl
stored_some (text s) h = refl
stored_some (array items) h = refl
stored_some (object fields) h = refl

replay-replayed :
    (e : Entry) (r : Reply)
    → replay_of e.status e.response_status e.response_payload ≡ some r
    → r.replayed ≡ true
unfolding replay_of
replay-replayed e r h = ground (arith, h)

module _ {S : Type 0} (org key hash : Uuid) where
  abbrev Answered : Reply → Database S → Type 0
  Answered reply db =
      (e : Entry) × (find_row (is_entry org key) db.entries ≡ some e)
      × (e.request_hash ≡ hash)
      × (replay_of e.status e.response_status e.response_payload
          ≡ some (record { replayed = true; status = reply.status; payload = reply.payload }))

  run-Answered :
      (handler : Action S Response) (reply : Reply) (db : Database S)
      → Answered reply db
      → run org key hash handler db
        ≡ (ok (record { replayed = true; status = reply.status; payload = reply.payload }), db)
  unfolding run
  run-Answered handler reply db (e, found, same, replay) = ground (arith, found, same, replay)

  handle_answers :
      (handler : Action S Response) (entries : List Entry) (rest : S) (e : Entry) (reply : Reply)
      → find_row (is_entry org key) entries ≡ some e
      → e.request_hash ≡ hash
      → (handle org key hash handler entries rest).0 ≡ ok reply
      → reply.payload ≢ null
      → Answered reply (handle org key hash handler entries rest).1
  unfolding handle settle
  handle_answers handler entries rest e reply found same h present = by_result (handler rest).0 refl
    where
      by_result :
          (r : Result Response)
          → (handler rest).0 ≡ r
          → Answered reply (handle org key hash handler entries rest).1
      by_result (ok r) eq = (
        complete r e,
        ground (arith, eq, find-update org key (complete r) (λ x t. t) entries e found),
        same,
        unfold replay_of in ground (arith, eq, h, stored_some reply.payload present),
      )
      by_result (err x) eq = absurd (ground (arith, eq, h))

  run_new :
      (handler : Action S Response) (db : Database S)
      → find_row (is_entry org key) db.entries ≡ none
      → run org key hash handler db
        ≡ handle org key hash handler (new_entry org key hash ∷ db.entries) db.rest
  unfolding run
  run_new handler db missing = ground (arith, missing)

  run_again :
      (handler : Action S Response) (db : Database S) (e : Entry)
      → find_row (is_entry org key) db.entries ≡ some e
      → e.request_hash ≡ hash
      → replay_of e.status e.response_status e.response_payload ≡ none
      → run org key hash handler db ≡ handle org key hash handler db.entries db.rest
  unfolding run
  run_again handler db e found same not_yet = ground (arith, found, same, not_yet)

  run_known :
      (handler : Action S Response) (db : Database S) (e : Entry) (r : Reply)
      → find_row (is_entry org key) db.entries ≡ some e
      → e.request_hash ≡ hash
      → replay_of e.status e.response_status e.response_payload ≡ some r
      → run org key hash handler db ≡ (ok r, db)
  unfolding run
  run_known handler db e r found same known = ground (arith, found, same, known)

  -- A key that was used with another request is refused, and the handler is not run.
  pub run_conflict :
      (handler : Action S Response) (db : Database S) (e : Entry)
      → find_row (is_entry org key) db.entries ≡ some e
      → e.request_hash ≢ hash
      → run org key hash handler db ≡ (err idempotency_conflict, db)
  unfolding run
  run_conflict handler db e found other = ground (arith, found, other)

  run_answers :
      (handler : Action S Response) (reply : Reply) (db : Database S)
      → (run org key hash handler db).0 ≡ ok reply
      → reply.payload ≢ null
      → Answered reply (run org key hash handler db).1
  run_answers handler reply db h present = from_row (find_row (is_entry org key) db.entries) refl
    where
      from_entry :
          (e : Entry)
          → find_row (is_entry org key) db.entries ≡ some e
          → e.request_hash ≡ hash
          → (o : Option Reply) → replay_of e.status e.response_status e.response_payload ≡ o
          → Answered reply (run org key hash handler db).1
      from_entry e found same none not_yet =
          let step = run_again handler db e found same not_yet in
          rw step
            (handle_answers handler db.entries db.rest e reply found same (rw step at h) present)
      from_entry e found same (some r) known =
          let step = run_known handler db e r found same known in
          rw step (e, found, same, ground (arith, known, replay-replayed e r known, rw step at h))

      from_row :
          (o : Option Entry)
          → find_row (is_entry org key) db.entries ≡ o
          → Answered reply (run org key hash handler db).1
      from_row none missing =
          let step = run_new handler db missing in
          rw step (
            handle_answers handler (new_entry org key hash ∷ db.entries) db.rest
              (new_entry org key hash) reply (ground arith) refl (rw step at h) present)
      from_row (some e) found = elim (Bool-cases (e.request_hash == hash)) [
        | inl t ↦ from_entry e found (ground (arith, t)) _ refl
        | inr n ↦ absurd (ground (arith, run_conflict handler db e found (ground (arith, n)), h))
      ]

  -- After a run that returned a reply, a run of the same request under the same key returns the
  -- same status and payload, marked as replayed, and neither runs its handler nor changes
  -- anything; but only if the payload is not null.
  pub run_replays :
      (first second : Action S Response) (reply : Reply) (db : Database S)
      → (run org key hash first db).0 ≡ ok reply
      → reply.payload ≢ null
      → let db' = (run org key hash first db).1 in
        run org key hash second db'
        ≡ (ok (record { replayed = true; status = reply.status; payload = reply.payload }), db')
  run_replays first second reply db h present =
      run-Answered second reply (run org key hash first db).1 (run_answers first reply db h present)
