-- ===== src/Tokenizer/Positions.antt =====
-- The positions that `fragmentTokenize` writes into its tokens.
use mathlib.Core.Path.{subst}
use monocle.Prelude.{ℕ, ◌+◌, ◌≡◌, refl, sym, List, [], ◌∷◌, ◌++◌, Bool-cases, inl, inr, arith}
use monocle.Prelude.Text.{Text}
use monocle.Prelude.Suffix.{byte_length}
use monocle.Prelude.Unicode.{Unicode, lower}
use monocle.Tokenizer.{
  TokenType, unknown, Token, extends, extended, rune_type, cut_token, last_token, scan,
  fragment_tokenize,
}

-- Every token starts at `global` but the last, which starts at 0; each ends its length behind its start.
abbrev pub StartsTogether : ℕ → List Token → Type 0
StartsTogether global [] = Unit
StartsTogether global (t ∷ []) = (t.start_pos ≡ 0) × (t.end_pos ≡ byte_length t.value)
StartsTogether global (t ∷ t' ∷ ts) =
    (t.start_pos ≡ global)
    × (t.end_pos ≡ global + byte_length t.value)
    × StartsTogether global (t' ∷ ts)

module _ (u : Unicode) (global : ℕ) where
  cut_first :
      (ty : TokenType) (v : Text) (t : Token) (ts : List Token)
      → StartsTogether global (t ∷ ts)
      → StartsTogether global (cut_token u global ty v ∷ t ∷ ts)
  cut_first ty v t ts h = (omega arith, omega arith, h)

  -- A scan with a non-empty buffer gives a token.
  abbrev Given : List Token → Type 0
  Given l = (t : Token) × (ts : List Token) × (l ≡ t ∷ ts) × StartsTogether global (t ∷ ts)

  scan-Given : (ty : TokenType) (b : ℕ) (v runes : Text) → Given (scan u global ty (b ∷ v) runes)
  unfolding scan
  scan-Given ty b v [] = (last_token u global ty (b ∷ v), [], refl, (refl, omega arith))
  scan-Given ty b v (r ∷ runes) = elim (Bool-cases (extends ty (rune_type u r))) [
    | inl more ↦ rw more (scan-Given (extended ty (rune_type u r)) b (v ++ r ∷ []) runes)
    | inr next ↦
        let (t, ts, e, h) = scan-Given (rune_type u r) r [] runes in
        rw (next, e) (cut_token u global ty (b ∷ v), t ∷ ts, refl, cut_first ty (b ∷ v) t ts h)
  ]

  started :
      (r : ℕ) (runes : Text)
      → StartsTogether global (scan u global (rune_type u r) (r ∷ []) runes)
      → StartsTogether global (scan u global unknown [] (r ∷ runes))
  unfolding scan
  started r runes h = h

  scan_starts : (runes : Text) → StartsTogether global (scan u global unknown [] runes)
  scan_starts [] = unfold scan in tt
  scan_starts (r ∷ runes) =
      let (t, ts, e, h) = scan-Given (rune_type u r) r [] runes in
      started r runes (subst (StartsTogether global) (sym e) h)

-- The positions in the tokens of a fragment are not those of the tokens: all but the last one claim to
-- start where the fragment starts, and the last one at 0.
pub fragment_tokenize-StartsTogether :
    (u : Unicode) (global : ℕ) (s : Text) → StartsTogether global (fragment_tokenize u global s)
unfolding fragment_tokenize
fragment_tokenize-StartsTogether u global s = scan_starts u global (lower u s)
