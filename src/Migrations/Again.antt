-- ===== src/Migrations/Again.antt =====
-- A migration that has finished is not run again.
use mathlib.Core.Path.{subst}
use daja_platform.Base.{
  ℕ, ◌≡◌, refl, sym, ap, ◌∙◌, true, false, some, List, [], ◌∷◌, if◌then◌else◌, find_row,
  update_rows, All, Result, ok, err, arith, ◌>>=◌, Bool-cases, Option-cases, inl, inr, ◌⊎◌,
}
use daja_platform.Base.Keeps.{bind_returns, bind_ok}
use daja_platform.Base.Rows.{find_row-passes, find_row-update_rows}
use daja_platform.Tokens.Split.{Text, same_text, same_text-eq, same_text_refl}
use daja_platform.Migrations.{
  MigrationFile, HistoryRow, MigrationDb, MigrationStatus, done, is_recoverable, has_version,
  checksum_matches, run_sql, row_of, apply_new, apply_again, migrate_one, migrate_all,
  answer_migrate, migrate,
}

-- No version is given twice.
unfoldable pub IsDistinct : List MigrationFile → Type 0
IsDistinct [] = Unit
IsDistinct (f ∷ fs) = All (λ g. same_text f.version g.version ≡ false) fs × IsDistinct fs

other_text : (x y : Text) → same_text x y ≡ false → same_text y x ≡ false
other_text x y n = elim (Bool-cases (same_text y x)) [
  | inr m ↦ m
  | inl t ↦
      let e : y ≡ x = same_text-eq y x t in
      let bad : same_text x x ≡ false = subst (λ z. same_text x z ≡ false) e n in
      ground (arith, bad, same_text_refl x)
]

module _ {S : Type 0} (digest : Text → ℕ) (execute : Text → S → Result S) where
  -- The history has the file, under a checksum that fits.
  abbrev IsApplied : MigrationFile → MigrationDb S → Type 0
  IsApplied f db =
      (row : HistoryRow) × (find_row (has_version f.version) db.history ≡ some row)
      × (checksum_matches digest execute f.sql row.checksum ≡ true)

  migrate_one-applied :
      (f : MigrationFile) (db : MigrationDb S)
      → IsApplied f db
      → migrate_one digest execute f db ≡ (ok tt, db)
  unfolding migrate_one
  migrate_one-applied f db (row, found, fits) = ground (arith, found, fits)

  own_checksum : (sql : Text) → checksum_matches digest execute sql (digest sql) ≡ true
  unfolding checksum_matches
  own_checksum sql = ground arith

  apply_new-history :
      (f : MigrationFile) (db : MigrationDb S)
      → (apply_new digest execute f db).0 ≡ ok tt
      → (apply_new digest execute f db).1.history ≡ row_of digest execute f ∷ db.history
  unfolding apply_new run_sql ◌>>=◌
  apply_new-history f db h = ground (arith, h)

  apply_again-history :
      (f : MigrationFile) (db : MigrationDb S)
      → (apply_again digest execute f db).0 ≡ ok tt
      → (apply_again digest execute f db).1.history
        ≡ update_rows (has_version f.version) (λ r. record r { checksum = digest f.sql }) db.history
  unfolding apply_again run_sql ◌>>=◌
  apply_again-history f db h = ground (arith, h)

  -- What a round that returns has done to the history.
  abbrev IsWritten : MigrationFile → MigrationDb S → MigrationDb S → Type 0
  IsWritten f db after =
      ((after ≡ db) × IsApplied f db)
      ⊎ ((after.history ≡ row_of digest execute f ∷ db.history)
          ⊎ ((row : HistoryRow) × (find_row (has_version f.version) db.history ≡ some row)
              × (after.history
                  ≡ update_rows (has_version f.version) (λ r. record r { checksum = digest f.sql })
                      db.history)))

  migrate_one-IsWritten :
      (f : MigrationFile) (db : MigrationDb S)
      → (migrate_one digest execute f db).0 ≡ ok tt
      → IsWritten f db (migrate_one digest execute f db).1
  unfolding migrate_one
  migrate_one-IsWritten f db h = elim (Option-cases (find_row (has_version f.version) db.history)) [
    | inl n ↦
        let e : migrate_one digest execute f db ≡ apply_new digest execute f db =
          ground (arith, n) in
        inr (inl (ap (λ o. o.1.history) e ∙ apply_new-history f db (sym (ap (λ o. o.0) e) ∙ h)))
    | inr (row, found) ↦ elim (Bool-cases (checksum_matches digest execute f.sql row.checksum)) [
      | inl fits ↦ inl (ground (arith, found, fits), (row, found, fits))
      | inr n ↦ elim (Bool-cases (is_recoverable f.version)) [
        | inl again ↦
            let e : migrate_one digest execute f db ≡ apply_again digest execute f db =
              ground (arith, found, n, again) in
            inr (
              inr (
                row,
                found,
                ap (λ o. o.1.history) e ∙ apply_again-history f db (sym (ap (λ o. o.0) e) ∙ h),
              ))
        | inr never ↦ ground (arith, found, n, never, h)
      ]
    ]
  ]

  find_updated :
      (v : Text) (checksum : ℕ) (rows : List HistoryRow) (row : HistoryRow) (w : Text)
      → find_row (has_version w) rows ≡ some row
      → find_row
          (has_version w)
          (update_rows (has_version v) (λ r. record r { checksum = checksum }) rows)
        ≡ some (if has_version v row then record row { checksum = checksum } else row)
  find_updated v checksum rows row w =
      find_row-update_rows (has_version w) (has_version v) (λ r. record r { checksum = checksum })
        (λ r. refl) rows row

  written-IsApplied :
      (f : MigrationFile) (db after : MigrationDb S) → IsWritten f db after → IsApplied f after
  written-IsApplied f db after (inl (same, k)) = subst (IsApplied f) (sym same) k
  written-IsApplied f db after (inr (inl new)) = (
    row_of digest execute f,
    ap (find_row (has_version f.version)) new ∙ rw (same_text_refl f.version) refl,
    own_checksum f.sql,
  )
  written-IsApplied f db after (inr (inr (row, found, again))) = (
    record row { checksum = digest f.sql },
    ap (find_row (has_version f.version)) again
        ∙ find_updated f.version (digest f.sql) db.history row f.version found
        ∙ rw (find_row-passes (has_version f.version) db.history row found) refl,
    own_checksum f.sql,
  )

  -- A file that has been applied stays applied when another one is.
  written_keeps :
      (f g : MigrationFile) (db after : MigrationDb S)
      → same_text f.version g.version ≡ false
      → IsWritten f db after
      → IsApplied g db
      → IsApplied g after
  written_keeps f g db after other (inl (same, _)) k = subst (IsApplied g) (sym same) k
  written_keeps f g db after other (inr (inl new)) (row, found, fits) =
      (row, ap (find_row (has_version g.version)) new ∙ (rw other found), fits)
  written_keeps f g db after other (inr (inr (_, _, again))) (row, found, fits) =
      let named : row.version ≡ g.version =
        same_text-eq row.version g.version
          (find_row-passes (has_version g.version) db.history row found) in
      let unlike : has_version f.version row ≡ false =
        subst (λ x. same_text x f.version ≡ false) (sym named)
          (other_text f.version g.version other) in
      (
        row,
        ap (find_row (has_version g.version)) again
            ∙ find_updated f.version (digest f.sql) db.history row g.version found
            ∙ rw unlike refl,
        fits,
      )

  migrate_all_keeps :
      (g : MigrationFile) (fs : List MigrationFile) (db : MigrationDb S)
      → All (λ f. same_text g.version f.version ≡ false) fs
      → (migrate_all digest execute fs db).0 ≡ ok tt
      → IsApplied g db
      → IsApplied g (migrate_all digest execute fs db).1
  unfolding migrate_all
  migrate_all_keeps g [] db other h k = k
  migrate_all_keeps g (f ∷ fs) db other h k =
      let (u, one, rest) =
        bind_returns (migrate_one digest execute f) (λ _. migrate_all digest execute fs) db h in
      let e =
        bind_ok (migrate_one digest execute f) (λ _. migrate_all digest execute fs) db u one in
      subst (λ o. IsApplied g o.1) (sym e)
        (migrate_all_keeps g fs (migrate_one digest execute f db).1 other.1 rest (
          written_keeps f g db (migrate_one digest execute f db).1
            (other_text g.version f.version other.0) (migrate_one-IsWritten f db one) k))

  migrate_all-IsApplied :
      (fs : List MigrationFile) (db : MigrationDb S)
      → IsDistinct fs
      → (migrate_all digest execute fs db).0 ≡ ok tt
      → All (λ f. IsApplied f (migrate_all digest execute fs db).1) fs
  unfolding migrate_all IsDistinct
  migrate_all-IsApplied [] db d h = tt
  migrate_all-IsApplied (f ∷ fs) db d h =
      let (u, one, rest) =
        bind_returns (migrate_one digest execute f) (λ _. migrate_all digest execute fs) db h in
      let e =
        bind_ok (migrate_one digest execute f) (λ _. migrate_all digest execute fs) db u one in
      let after : MigrationDb S = (migrate_one digest execute f db).1 in
      subst (λ o. All (λ g. IsApplied g o.1) (f ∷ fs)) (sym e)
        (
          migrate_all_keeps f fs after d.0 rest
              (written-IsApplied f db after (migrate_one-IsWritten f db one)),
          migrate_all-IsApplied fs after d.1 rest,
        )

  migrate_all-applied :
      (fs : List MigrationFile) (db : MigrationDb S)
      → All (λ f. IsApplied f db) fs
      → migrate_all digest execute fs db ≡ (ok tt, db)
  unfolding migrate_all ◌>>=◌
  migrate_all-applied [] db k = refl
  migrate_all-applied (f ∷ fs) db k =
      ground (arith, migrate_one-applied f db k.0, migrate_all-applied fs db k.1)

  answer_returns :
      (files : List MigrationFile) (r : Result (Unit {0})) (db : MigrationDb S)
      (s : List MigrationStatus)
      → (answer_migrate digest execute files r db).0 ≡ done s
      → (r ≡ ok tt) × (answer_migrate digest execute files r db ≡ (done s, db))
  unfolding answer_migrate
  answer_returns files (err e) db s h = cc
  answer_returns files (ok u) db s h = (refl, rw h refl)

  -- A migration that is done is done for good: with the same files, of which no two have one
  -- version, a second run under the lock answers with the same list and changes nothing, so it runs
  -- no file's SQL, whatever the first one found in the history.
  pub migrate_again :
      (files : List MigrationFile) (db : MigrationDb S) (s : List MigrationStatus)
      → IsDistinct files
      → (migrate digest execute files true db).0 ≡ done s
      → migrate digest execute files true (migrate digest execute files true db).1
        ≡ (done s, (migrate digest execute files true db).1)
  unfolding migrate
  migrate_again files db s distinct h =
      let after : MigrationDb S = (migrate_all digest execute files db).1 in
      let (all_ok, e) = answer_returns files (migrate_all digest execute files db).0 after s h in
      let still =
        migrate_all-applied files after (migrate_all-IsApplied files db distinct all_ok) in
      let first : answer_migrate digest execute files (ok tt) after ≡ (done s, after) =
        ap (λ r. answer_migrate digest execute files r after) (sym all_ok) ∙ e in
      ap (λ x. migrate digest execute files true x.1) e
      ∙ ap (λ o. answer_migrate digest execute files o.0 o.1) still
      ∙ first
      ∙ ap (λ x. (done s, x)) (sym (ap (λ o. o.1) e))
