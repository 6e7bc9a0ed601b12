-- ===== src/Prelude/Decimal.antt =====
-- Decimal numerals: `%d` of package fmt, and the integers that package strconv reads.
use Prim.Native.Nat.{ℕ, zero, suc, ◌+◌, ◌-◌, ◌*◌, ◌/◌, ◌%◌, ◌^◌, ◌≤◌, ◌<◌}
use mathlib.Core.Path.{◌≡◌, sym, ap, ◌∙◌}
use mathlib.Core.Bool.{true, false, ◌&&◌}
use mathlib.Core.List.{[], ◌∷◌, ◌++◌}
use mathlib.Core.Logic.{inl, inr}
use mathlib.Core.Option.{Option, none, some}
use native.Mathlib.Omega.{arith}
use monocle.Prelude.Tests.{ltb, leb, ◌==◌, if◌then◌else◌, Bool-cases, ltb→lt}
use monocle.Prelude.Text.{Text}
use monocle.Prelude.Unicode.{ℤ, pos, negsuc}

-- `%d` of a number that is not negative; the number itself and one more is enough fuel.
unfoldable pub digits : ℕ → ℕ → Text
digits zero n = []
digits (suc fuel) n = elim (ltb n 10) [
  | true ↦ (b'0' + n) ∷ []
  | false ↦ digits fuel (n / 10) ++ (b'0' + n % 10) ∷ []
]

abbrev pub decimal : ℕ → Text
decimal n = digits (suc n) n

-- The value of a row of digits behind `n`.
unfoldable pub scan_digits : ℕ → Text → Option ℕ
scan_digits n [] = some n
scan_digits n (c ∷ s) =
    let rest = scan_digits (n * 10 + (c - b'0')) s in
    if leb b'0' c && leb c b'9' then rest else none

unfoldable pub in_range : ℕ → Option ℕ → Option ℕ
in_range most none = none
in_range most (some n) = if leb n most then some n else none

-- The magnitude behind a sign.
unfoldable pub magnitude : ℕ → Text → Option ℕ
magnitude most [] = none
magnitude most (c ∷ s) = in_range most (scan_digits 0 (c ∷ s))

abbrev negated : ℕ → ℤ
negated zero = pos 0
negated (suc n) = negsuc n

-- `strconv.ParseInt(s, 10, 64)` and `strconv.Atoi(s)`; `none` is the error.
unfoldable pub parse_int : Text → Option ℤ
parse_int [] = none
parse_int (c ∷ s) =
    if c == b'-'
    then (elim (magnitude (2 ^ 63) s) [ none ↦ none | some n ↦ some (negated n) ])
    else (elim (magnitude (2 ^ 63 - 1) (if c == b'+' then s else c ∷ s)) [
      | none ↦ none
      | some n ↦ some (pos n)
    ])

scan_digits-append :
    (n m : ℕ) (s t : Text) → scan_digits n s ≡ some m → scan_digits n (s ++ t) ≡ scan_digits m t
unfolding scan_digits
scan_digits-append n m [] t h = ap (λ k. scan_digits k t) (ground (arith, h))
scan_digits-append n m (c ∷ s) t h = elim (Bool-cases (leb b'0' c && leb c b'9')) [
  | inl digit ↦ rw digit (scan_digits-append (n * 10 + (c - b'0')) m s t (ground (arith, digit, h)))
  | inr other ↦ absurd (ground (arith, other, h))
]

digits_small : (fuel n : ℕ) → ltb n 10 ≡ true → digits (suc fuel) n ≡ (b'0' + n) ∷ []
unfolding digits
digits_small fuel n h = ground arith

digits_big :
    (fuel n : ℕ)
    → ltb n 10 ≡ false
    → digits (suc fuel) n ≡ digits fuel (n / 10) ++ (b'0' + n % 10) ∷ []
unfolding digits
digits_big fuel n h = ground arith

scan_one : (m d : ℕ) → d < 10 → scan_digits m ((b'0' + d) ∷ []) ≡ some (m * 10 + d)
unfolding scan_digits
scan_one m d h = ground arith

-- A numeral is read back.
pub scan_digits-digits : (fuel n : ℕ) → n < fuel → scan_digits 0 (digits fuel n) ≡ some n
scan_digits-digits zero n h = absurd (omega arith)
scan_digits-digits (suc fuel) n h = elim (Bool-cases (ltb n 10)) [
  | inl small ↦
      ap (scan_digits 0) (digits_small fuel n small)
      ∙ scan_one 0 n (ltb→lt n 10 small)
      ∙ ap some (omega arith)
  | inr big ↦
      ap (scan_digits 0) (digits_big fuel n big)
      ∙ scan_digits-append 0 (n / 10) (digits fuel (n / 10)) _
          (scan_digits-digits fuel (n / 10) (ground (arith, h, big)))
      ∙ scan_one (n / 10) (n % 10) (omega arith)
      ∙ ap some (omega arith)
]

digits_head : (fuel n : ℕ) → n < fuel → (c : ℕ) × (s : Text) × (digits fuel n ≡ c ∷ s) × (b'0' ≤ c)
digits_head zero n h = absurd (omega arith)
digits_head (suc fuel) n h = elim (Bool-cases (ltb n 10)) [
  | inl small ↦ (b'0' + n, [], digits_small fuel n small, omega arith)
  | inr big ↦
      let (c, s, e, low) = digits_head fuel (n / 10) (ground (arith, h, big)) in
      (
        c,
        s ++ (b'0' + n % 10) ∷ [],
        digits_big fuel n big ∙ ap (λ t. t ++ (b'0' + n % 10) ∷ []) e,
        low,
      )
]

parse_head :
    (c n : ℕ) (s : Text)
    → b'0' ≤ c
    → scan_digits 0 (c ∷ s) ≡ some n
    → n < 2 ^ 63
    → parse_int (c ∷ s) ≡ some (pos n)
unfolding parse_int magnitude in_range
parse_head c n s low read small = ground (arith, read)

-- What `%d` prints of a number below 2^63, `Atoi` reads back.
pub parse_int-decimal : (n : ℕ) → n < 2 ^ 63 → parse_int (decimal n) ≡ some (pos n)
parse_int-decimal n h =
    let (c, s, e, low) = digits_head (suc n) n (omega arith) in
    ap parse_int e
    ∙ parse_head c n s low (ap (scan_digits 0) (sym e) ∙ scan_digits-digits (suc n) n (omega arith))
        h
