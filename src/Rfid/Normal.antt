-- ===== src/Rfid/Normal.antt =====
-- The code that `normalizeEpc` returns is a normal form.
use mathlib.Core.Path.{subst}
use daja_platform.Base.{
  ℕ, ◌≡◌, refl, ap, ◌∙◌, true, false, not, [], ◌∷◌, all, where_rows, ok, arith, Bool-cases, inl,
  inr,
}
use daja_platform.Tokens.Split.{Text}
use daja_platform.Rfid.Epc.{
  Unicode, is_hex, strip_prefix, trim_start, trim_end, is_separator, cleaned, is_epc, normalize_epc,
}

strip_prefix-hex : (x : Text) → all is_hex x ≡ true → strip_prefix x ≡ x
unfolding strip_prefix
strip_prefix-hex [] h = refl
strip_prefix-hex (a ∷ []) h = refl
strip_prefix-hex (a ∷ b ∷ cs) h = ground (arith, h)

module _ (u : Unicode) (ascii : (c : ℕ) → is_hex c ≡ true → u.is_space c ≡ false) where
  trim_start-hex : (x : Text) → all is_hex x ≡ true → trim_start u x ≡ x
  unfolding trim_start
  trim_start-hex [] h = refl
  trim_start-hex (c ∷ cs) h = let hex : is_hex c ≡ true = ground (arith, h) in rw (ascii c hex) refl

  trim_end-hex : (x : Text) → all is_hex x ≡ true → trim_end u x ≡ x
  unfolding trim_end
  trim_end-hex [] h = refl
  trim_end-hex (c ∷ cs) h =
      let hex : is_hex c ≡ true = ground (arith, h) in
      ground (arith, ascii c hex, trim_end-hex cs (ground (arith, h)))

  kept-hex : (x : Text) → all is_hex x ≡ true → where_rows (λ c. not (is_separator u c)) x ≡ x
  kept-hex [] h = refl
  kept-hex (c ∷ cs) h =
      let hex : is_hex c ≡ true = ground (arith, h) in
      ground (arith, hex, ascii c hex, kept-hex cs (ground (arith, h)))

  cleaned-hex :
      (x : Text)
      → ((y : Text) → all is_hex y ≡ true → u.upper y ≡ y)
      → all is_hex x ≡ true
      → cleaned u x ≡ x
  unfolding cleaned
  cleaned-hex x up h =
      let keep : Text → Text = where_rows (λ c. not (is_separator u c)) in
      ap (λ y. u.upper (keep (strip_prefix (trim_end u y)))) (trim_start-hex x h)
      ∙ ap (λ y. u.upper (keep (strip_prefix y))) (trim_end-hex x h)
      ∙ ap (λ y. u.upper (keep y)) (strip_prefix-hex x h)
      ∙ ap u.upper (kept-hex x h)
      ∙ up x h

  normalized : (input epc : Text) → normalize_epc u input ≡ ok epc → is_epc epc ≡ true
  unfolding normalize_epc
  normalized input epc h = elim (Bool-cases (is_epc (cleaned u input))) [
    | inl t ↦
        let e : cleaned u input ≡ epc = ground (arith, t, h) in subst (λ y. is_epc y ≡ true) e t
    | inr n ↦ ground (arith, n, h)
  ]

  -- What `normalize_epc` returns is an EPC, and it returns it again when it is given it, if no digit
  -- or letter from A to F is white space and upper case changes no text of these.
  pub normalize_epc_again :
      (input epc : Text)
      → ((y : Text) → all is_hex y ≡ true → u.upper y ≡ y)
      → normalize_epc u input ≡ ok epc
      → (is_epc epc ≡ true) × (normalize_epc u epc ≡ ok epc)
  unfolding normalize_epc
  normalize_epc_again input epc up h =
      let valid : is_epc epc ≡ true = normalized input epc h in
      (valid, rw (cleaned-hex epc up (ground (arith, valid)), valid) refl)
