-- ===== src/Prelude/Unicode.antt =====
-- Go's `unicode` tables, as a parameter, and what `strings` and `strconv` compute with them.
-- Texts are sequences of code points; `ascii` is the tables' part below 128.
use Prim.Native.Nat.{ℕ, zero, suc, ◌+◌, ◌-◌, ◌*◌, ◌^◌}
use mathlib.Core.Bool.{Bool, ◌&&◌, ◌||◌}
use mathlib.Core.List.{List, [], ◌∷◌, ◌++◌, map, reverse}
use mathlib.Core.Option.{Option, none, some}
use monocle.Prelude.Tests.{ltb, leb, ◌==◌, if◌then◌else◌}
use monocle.Prelude.Text.{Text}

pub record Unicode : Type 0 where
  pub is_letter : ℕ → Bool
  pub is_digit : ℕ → Bool
  pub is_space : ℕ → Bool
  pub is_punct_or_symbol : ℕ → Bool
  pub to_lower : ℕ → ℕ

module _ (u : Unicode) where
  -- `strings.ToLower`
  abbrev pub lower : Text → Text
  lower = map u.to_lower

  unfoldable pub trim_left : Text → Text
  trim_left [] = []
  trim_left (c ∷ s) = if u.is_space c then trim_left s else c ∷ s

  -- `strings.TrimSpace`
  unfoldable pub trim_space : Text → Text
  trim_space s = reverse (trim_left (reverse (trim_left s)))

  -- The loop of `strings.Fields`; `word` is the field that is being read.
  unfoldable pub fields_from : Text → Text → List Text
  fields_from [] [] = []
  fields_from (w ∷ word) [] = (w ∷ word) ∷ []
  fields_from [] (c ∷ s) = fields_from (if u.is_space c then [] else c ∷ []) s
  fields_from (w ∷ word) (c ∷ s) =
      let next = (w ∷ word) ∷ fields_from [] s in
      let more = fields_from (w ∷ word ++ c ∷ []) s in if u.is_space c then next else more

  unfoldable pub fields : Text → List Text
  fields s = fields_from [] s

-- `strings.Split(s, "\n")`
unfoldable pub lines_from : Text → Text → List Text
lines_from line [] = line ∷ []
lines_from line (c ∷ s) =
    let next = line ∷ lines_from [] s in
    let more = lines_from (line ++ c ∷ []) s in if c == b'\n' then next else more

unfoldable pub lines : Text → List Text
lines s = lines_from [] s

-- A 64-bit `int`: `negsuc n` is -(n + 1).
pub data ℤ : Type 0 where
  pos : ℕ → ℤ
  negsuc : ℕ → ℤ

abbrev max_u64 : ℕ
max_u64 = 2 ^ 64 - 1

abbrev max_i64 : ℕ
max_i64 = 2 ^ 63 - 1

abbrev is_ascii_digit : ℕ → Bool
is_ascii_digit c = leb b'0' c && leb c b'9'

-- `strconv.ParseUint(s, 10, 64)` behind the first digit: an overflow stops the scan at the maximum.
unfoldable pub scan_uint : ℕ → Text → Option ℕ
scan_uint n [] = some n
scan_uint n (c ∷ s) =
    let m = n * 10 + (c - b'0') in
    let rest = scan_uint m s in
    if is_ascii_digit c then (if ltb max_u64 m then some max_u64 else rest) else none

abbrev parse_uint : Text → Option ℕ
parse_uint [] = none
parse_uint (c ∷ s) = scan_uint 0 (c ∷ s)

abbrev clamp_pos : Option ℕ → ℤ
clamp_pos none = pos 0
clamp_pos (some n) = if ltb max_i64 n then pos max_i64 else pos n

abbrev clamp_neg : Option ℕ → ℤ
clamp_neg none = pos 0
clamp_neg (some zero) = pos 0
clamp_neg (some (suc n)) = if ltb max_i64 n then negsuc max_i64 else negsuc n

-- The value of `strconv.Atoi`, its error dropped: 0 for a bad text, the nearest bound out of range.
unfoldable pub atoi : Text → ℤ
atoi [] = pos 0
atoi (c ∷ s) =
    if c == b'-'
    then clamp_neg (parse_uint s)
    else if c == b'+'
    then clamp_pos (parse_uint s)
    else clamp_pos (parse_uint (c ∷ s))

abbrev between : ℕ → ℕ → ℕ → Bool
between lo hi c = leb lo c && leb c hi

-- The tables below 128.
abbrev pub ascii : Unicode
ascii = record {
  is_letter = λ c. between b'a' b'z' c || between b'A' b'Z' c;
  is_digit = between b'0' b'9';
  is_space = λ c. between 9 13 c || c == 32;
  is_punct_or_symbol =
      λ c. between 33 47 c || between 58 64 c || between 91 96 c || between 123 126 c;
  to_lower = λ c. if between b'A' b'Z' c then c + 32 else c;
}
