-- ===== src/Rfid/Epc.antt =====
-- packages/validation/src/index.ts: `normalizeEpc`. A text is a list of character codes. Which
-- characters are white space, and upper case beyond ASCII, belong to JavaScript: a parameter.
use daja_platform.Base.{
  ℕ, ◌%◌, Bool, not, [], ◌∷◌, ◌&&◌, ◌||◌, ◌==◌, leb, all, length, is_empty, where_rows,
  if◌then◌else◌, Result, ok, err,
}
use daja_platform.Security.Errors.{validation_failed}
use daja_platform.Tokens.Split.{Text}

pub record Unicode : Type 0 where
  pub is_space : ℕ → Bool
  pub upper : Text → Text

-- `[0-9A-F]`
abbrev pub is_hex : ℕ → Bool
is_hex c = leb 48 c && leb c 57 || leb 65 c && leb c 70

-- `.replace(/^0x/i, '')`
unfoldable pub strip_prefix : Text → Text
strip_prefix (a ∷ b ∷ cs) = if a == 48 && (b == 120 || b == 88) then cs else a ∷ b ∷ cs
strip_prefix cs = cs

abbrev pub is_epc : Text → Bool
is_epc x = all is_hex x && leb 8 (length x) && leb (length x) 64 && length x % 2 == 0

module _ (u : Unicode) where
  unfoldable pub trim_start : Text → Text
  trim_start [] = []
  trim_start (c ∷ cs) = let rest = trim_start cs in if u.is_space c then rest else c ∷ cs

  unfoldable pub trim_end : Text → Text
  trim_end [] = []
  trim_end (c ∷ cs) =
      let rest = trim_end cs in if is_empty rest && u.is_space c then [] else c ∷ rest

  -- `[\s:._-]`
  abbrev pub is_separator : ℕ → Bool
  is_separator c = u.is_space c || c == 58 || c == 46 || c == 95 || c == 45

  unfoldable pub cleaned : Text → Text
  unfolding trim_start trim_end strip_prefix
  cleaned input =
      u.upper (where_rows (λ c. not (is_separator c)) (strip_prefix (trim_end (trim_start input))))

  unfoldable pub normalize_epc : Text → Result Text
  unfolding cleaned
  normalize_epc input =
      let epc = cleaned input in
      if not (is_epc epc) then err (validation_failed "Malformed EPC") else ok epc
