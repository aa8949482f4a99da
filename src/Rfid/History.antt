-- ===== src/Rfid/History.antt =====
-- The version of a tag counts its events.
use mathlib.Core.Path.{subst}
use daja_platform.Base.{
  ℕ, suc, ◌+◌, ◌≡◌, refl, sym, ◌∙◌, String, Bool, true, false, Option, some, List, [], ◌∷◌, ◌==◌,
  any, if◌then◌else◌, find_row, update_rows, ok, arith, ◌>>=◌, Bool-cases, inl, inr,
}
use daja_platform.Base.Keeps.{Keeps, Keeps-bind, Keeps-check, Returns-of}
use daja_platform.Context.{Uuid}
use daja_platform.Tokens.Split.{Text}
use daja_platform.Rfid.Epc.{Unicode}
use daja_platform.Rfid.Tags.{
  Tag, TagEvent, TagStore, TagInput, is_tag, is_live_tag, is_taken, write_tag, tag_event,
  insert_tag, new_tag, create_tag,
}

-- How many events the tag has.
unfoldable pub event_count : Uuid → List TagEvent → ℕ
event_count id [] = 0
event_count id (e ∷ es) = let n = event_count id es in if e.tag_id == id then suc n else n

abbrev pub has_id : Uuid → List Tag → Bool
has_id id = any (λ t. t.id == id)

-- Ids are not repeated, and each version is one more than the number of events.
unfoldable pub IsCounted : List Tag → List TagEvent → Type 0
IsCounted [] es = Unit
IsCounted (t ∷ ts) es =
    (t.version ≡ suc (event_count t.id es)) × (has_id t.id ts ≡ false) × IsCounted ts es

-- Every event is of a tag in the table.
unfoldable pub IsRooted : List Tag → List TagEvent → Type 0
IsRooted ts [] = Unit
IsRooted ts (e ∷ es) = (has_id e.tag_id ts ≡ true) × IsRooted ts es

pub record IsHistory (db : TagStore) : Type 0 where
  pub counted : IsCounted db.tags db.tag_events
  pub rooted : IsRooted db.tags db.tag_events

-- A tag that is found is in the table.
found-has_id :
    (org id : Uuid) (ts : List Tag) (t : Tag)
    → find_row (is_live_tag org id) ts ≡ some t
    → has_id id ts ≡ true
found-has_id org id [] t h = cc
found-has_id org id (x ∷ ts) t h = elim (Bool-cases (is_live_tag org id x)) [
  | inl l ↦ ground (arith, l)
  | inr n ↦ ground (arith, found-has_id org id ts t (ground (arith, n, h)))
]

-- The row that `write_tag` writes.
abbrev bumped : (Tag → Tag) → Tag → Tag
bumped f t = record (f t) { version = t.version + 1 }

module _ (org id : Uuid) (f : Tag → Tag) (same : (t : Tag) → (f t).id ≡ t.id) where
  has_id-bumped :
      (x : Uuid) (ts : List Tag)
      → has_id x (update_rows (is_tag org id) (bumped f) ts) ≡ has_id x ts
  has_id-bumped x [] = refl
  has_id-bumped x (t ∷ ts) = ground (arith, same t, has_id-bumped x ts)

  updated_id : (t : Tag) → (if is_tag org id t then bumped f t else t).id ≡ t.id
  updated_id t = ground (arith, same t)

  -- The other tags keep their count.
  IsCounted-other :
      (ts : List Tag) (es : List TagEvent) (e : TagEvent)
      → e.tag_id ≡ id
      → has_id id ts ≡ false
      → IsCounted ts es
      → IsCounted (update_rows (is_tag org id) (bumped f) ts) (e ∷ es)
  unfolding IsCounted event_count
  IsCounted-other [] es e tag other k = tt
  IsCounted-other (t ∷ ts) es e tag other k = (
    ground (arith, tag, other, k.0),
    rw (updated_id t, has_id-bumped t.id ts) k.1,
    IsCounted-other ts es e tag (ground (arith, other)) k.2,
  )

  IsCounted-write :
      (ts : List Tag) (es : List TagEvent) (e : TagEvent) (found : Tag)
      → e.tag_id ≡ id
      → find_row (is_live_tag org id) ts ≡ some found
      → IsCounted ts es
      → IsCounted (update_rows (is_tag org id) (bumped f) ts) (e ∷ es)
  unfolding IsCounted event_count
  IsCounted-write [] es e found tag h k = cc
  IsCounted-write (t ∷ ts) es e found tag h k = elim (Bool-cases (is_live_tag org id t)) [
    | inl l ↦ (
      ground (arith, tag, l, same t, k.0),
      rw (updated_id t, has_id-bumped t.id ts) k.1,
      IsCounted-other ts es e tag (ground (arith, l, k.1)) k.2,
    )
    | inr n ↦
        let later : find_row (is_live_tag org id) ts ≡ some found = ground (arith, n, h) in
        let there = found-has_id org id ts found later in
        (
          ground (arith, tag, k.0, k.1, there),
          rw (updated_id t, has_id-bumped t.id ts) k.1,
          IsCounted-write ts es e found tag later k.2,
        )
  ]

IsRooted-insert :
    (t : Tag) (ts : List Tag) (es : List TagEvent) → IsRooted ts es → IsRooted (t ∷ ts) es
unfolding IsRooted
IsRooted-insert t ts [] k = tt
IsRooted-insert t ts (e ∷ es) k = (ground (arith, k.0), IsRooted-insert t ts es k.1)

-- A new id has no events.
event_count-fresh :
    (id : Uuid) (ts : List Tag) (es : List TagEvent)
    → has_id id ts ≡ false
    → IsRooted ts es
    → event_count id es ≡ 0
unfolding IsRooted event_count
event_count-fresh id ts [] n k = refl
event_count-fresh id ts (e ∷ es) n k = ground (arith, n, k.0, event_count-fresh id ts es n k.1)

not_taken :
    (id org : Uuid) (epc : Text) (ts : List Tag)
    → any (is_taken id org epc) ts ≡ false
    → has_id id ts ≡ false
not_taken id org epc [] n = refl
not_taken id org epc (t ∷ ts) n = ground (arith, n, not_taken id org epc ts)

IsRooted-bumped :
    (org id : Uuid) (f : Tag → Tag)
    → ((t : Tag) → (f t).id ≡ t.id)
    → (ts : List Tag) (es : List TagEvent) → IsRooted ts es
    → IsRooted (update_rows (is_tag org id) (bumped f) ts) es
unfolding IsRooted
IsRooted-bumped org id f same ts [] k = tt
IsRooted-bumped org id f same ts (e ∷ es) k =
    (has_id-bumped org id f same e.tag_id ts ∙ k.0, IsRooted-bumped org id f same ts es k.1)

pub write_tag-IsHistory :
    (org id : Uuid) (f : Tag → Tag) (item : Option Uuid) (kind : String) (found : Tag)
    (db : TagStore)
    → ((t : Tag) → (f t).id ≡ t.id)
    → find_row (is_live_tag org id) db.tags ≡ some found
    → IsHistory db
    → IsHistory (write_tag org id f (tag_event org id item kind) db).1
unfolding write_tag IsRooted
write_tag-IsHistory org id f item kind found db same h k = record {
  counted =
      IsCounted-write org id f same db.tags db.tag_events (tag_event org id item kind) found refl h
        k.counted;
  rooted = (
    has_id-bumped org id f same id db.tags ∙ found-has_id org id db.tags found h,
    IsRooted-bumped org id f same db.tags db.tag_events k.rooted,
  );
}

insert_tag_returns :
    (t : Tag) (db : TagStore) (a : Tag)
    → (insert_tag t db).0 ≡ ok a
    → (any (is_taken t.id t.organization_id t.epc) db.tags ≡ false)
      × ((insert_tag t db).1 ≡ record db { tags = t ∷ db.tags })
unfolding insert_tag ◌>>=◌
insert_tag_returns t db a h = (ground (arith, h), ground (arith, h))

insert_tag-IsHistory : (t : Tag) → t.version ≡ 1 → Keeps IsHistory (insert_tag t)
unfolding IsCounted
insert_tag-IsHistory t one = record {
  at = λ db k. Returns-of IsHistory (insert_tag t db).0 (insert_tag t db).1 λ a h.
      let (free, after) = insert_tag_returns t db a h in
      let new = not_taken t.id t.organization_id t.epc db.tags free in
      subst IsHistory (sym after) record {
        counted = (
          omega (arith, one, event_count-fresh t.id db.tags db.tag_events new k.rooted),
          new,
          k.counted,
        );
        rooted = IsRooted-insert t db.tags db.tag_events k.rooted;
      };
}

pub create_tag-IsHistory :
    (u : Unicode) (id org : Uuid) (input : TagInput) → Keeps IsHistory (create_tag u id org input)
unfolding create_tag
create_tag-IsHistory u id org input = Keeps-bind IsHistory _ _ (Keeps-check IsHistory _) λ epc.
    Keeps-bind IsHistory _ _ (Keeps-check IsHistory _) λ _.
      Keeps-bind IsHistory _ _ (Keeps-check IsHistory _)
        λ tid. insert_tag-IsHistory (new_tag id org epc tid input) refl
