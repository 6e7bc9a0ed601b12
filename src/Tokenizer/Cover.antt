-- ===== src/Tokenizer/Cover.antt =====
-- `entityTokenize` loses nothing of its input.
use monocle.Prelude.{
  ℕ, zero, suc, ◌+◌, ◌-◌, ◌≤◌, ◌≡◌, refl, sym, ◌∙◌, ap, inl, inr, append-nil, ltb, some, List, [],
  ◌∷◌, ◌++◌, All, All-append, Bool-cases, length, take, drop, take-append-drop, append_assoc, arith,
}
use mathlib.Core.List.{map-append}
use mathlib.Core.Path.{ap₂}
use monocle.Prelude.Text.{Text}
use monocle.Prelude.Unicode.{Unicode, lower}
use monocle.Tokenizer.{
  Token, EntityToken, EntityRule, fragment_tokenize, slice, matches, potential, sort_stable, select,
  gap, weave, entity_tokenize,
}
use monocle.Tokenizer.Fragment.{spelled, spelled-fragment_tokenize}
use monocle.Tokenizer.Select.{IsDisjoint, select-IsDisjoint, select-All, sort_stable-All}

module _ {ℓ} {A : Type ℓ} where
  drop-nil : (i : ℕ) → drop {A = A} i [] ≡ []
  drop-nil zero = refl
  drop-nil (suc i) = refl

  drop-drop : (i j k : ℕ) (xs : List A) → i + j ≡ k → drop j (drop i xs) ≡ drop k xs
  drop-drop zero j k xs e = let e' : k ≡ j = omega arith in rw e'
  drop-drop (suc i) j k [] e = drop-nil j ∙ sym (drop-nil k)
  drop-drop (suc i) j zero (x ∷ xs) e = absurd (omega arith)
  drop-drop (suc i) j (suc k) (x ∷ xs) e = drop-drop i j k xs (omega arith)

  -- The text from `a` on, cut at `b`.
  segment : (a b : ℕ) (xs : List A) → a ≤ b → drop a xs ≡ take (b - a) (drop a xs) ++ drop b xs
  segment a b xs h =
      sym (take-append-drop (b - a) (drop a xs))
      ∙ ap (λ r. take (b - a) (drop a xs) ++ r) (drop-drop a (b - a) b xs (omega arith))

  drop_all : (xs : List A) → drop (length xs) xs ≡ []
  drop_all [] = refl
  drop_all (x ∷ xs) = drop_all xs

-- The token is a slice of the input.
abbrev Fits : Text → Token → Type 0
Fits input t =
    (t.start_pos ≤ t.end_pos)
    × (t.end_pos ≤ length input)
    × (t.value ≡ take (t.end_pos - t.start_pos) (drop t.start_pos input))

-- What a regular expression promises of its matches.
abbrev pub IsInBounds : Text → EntityRule → Type 0
IsInBounds input rule = All (λ p. (p.0 ≤ p.1) × (p.1 ≤ length input)) (rule.find_all input)

slice_in :
    (s : Text) (a b : ℕ) → a ≤ b → b ≤ length s → slice s a b ≡ some (take (b - a) (drop a s))
unfolding slice
slice_in s a b p q = ground arith

matches_lem :
    (rule : EntityRule) (input : Text) (found : List (ℕ × ℕ))
    → All (λ p. (p.0 ≤ p.1) × (p.1 ≤ length input)) found
    → (l : List EntityToken) × (matches rule input found ≡ some l) × All (λ a. Fits input a.token) l
unfolding matches
matches_lem rule input [] h = ([], refl, tt)
matches_lem rule input ((a, b) ∷ found) h =
    let (l, run, fits) = matches_lem rule input found h.1 in
    (
      record {
        token = record {
          type = rule.token_type;
          value = take (b - a) (drop a input);
          start_pos = a;
          end_pos = b;
        };
        priority = rule.priority;
      }
          ∷ l,
      rw (slice_in input a b h.0.0 h.0.1, run),
      ((h.0.0, h.0.1, refl), fits),
    )

potential_lem :
    (rules : List EntityRule) (input : Text)
    → All (IsInBounds input) rules
    → (l : List EntityToken) × (potential rules input ≡ some l) × All (λ a. Fits input a.token) l
unfolding potential
potential_lem [] input h = ([], refl, tt)
potential_lem (rule ∷ rules) input h =
    let (l, run, fits) = matches_lem rule input (rule.find_all input) h.0 in
    let (l', run', fits') = potential_lem rules input h.1 in
    (l ++ l', rw (run, run'), All-append _ l l' fits fits')

spelled-append : (ts ts' : List Token) → spelled (ts ++ ts') ≡ spelled ts ++ spelled ts'
spelled-append [] ts' = refl
spelled-append (t ∷ ts) ts' =
    ap (λ x. t.value ++ x) (spelled-append ts ts')
    ∙ sym (append_assoc t.value (spelled ts) (spelled ts'))

module _ (u : Unicode) (fixed : (c : ℕ) → u.to_lower (u.to_lower c) ≡ u.to_lower c) where
  lower-lower : (s : Text) → lower u (lower u s) ≡ lower u s
  lower-lower [] = refl
  lower-lower (c ∷ s) = ap₂ (λ x y. x ∷ y) (fixed c) (lower-lower s)

  lower_cut :
      (x x' y y' : Text)
      → lower u x ≡ lower u x'
      → lower u y ≡ lower u y'
      → lower u (x ++ y) ≡ lower u (x' ++ y')
  lower_cut x x' y y' p q =
      map-append u.to_lower x y ∙ ap₂ (λ v w. v ++ w) p q ∙ sym (map-append u.to_lower x' y')

  joined :
      (ts : List Token) (v w x y z : Text)
      → lower u (spelled ts) ≡ lower u x
      → v ≡ y
      → lower u w ≡ lower u z
      → lower u (spelled ts ++ (v ++ w)) ≡ lower u (x ++ (y ++ z))
  joined ts v w x y z p q r =
      lower_cut (spelled ts) x (v ++ w) (y ++ z) p (lower_cut v y w z (ap (lower u) q) r)

  module _ (input : Text) where
    -- Between two positions the tokens spell the text, up to case.
    gap_lem :
        (a b : ℕ)
        → a ≤ b
        → b ≤ length input
        → (ts : List Token) × (gap u input a b ≡ some ts)
          × (lower u (spelled ts) ≡ lower u (take (b - a) (drop a input)))
    unfolding gap
    gap_lem a b p q = elim (Bool-cases (ltb a b)) [
      | inl h ↦ (
        fragment_tokenize u a (take (b - a) (drop a input)),
        rw (h, slice_in input a b p q),
        ap (lower u) (spelled-fragment_tokenize u a _) ∙ lower-lower _,
      )
      | inr h ↦ let e : b - a ≡ 0 = ground arith in ([], rw h, rw e)
    ]

    to_end : (a : ℕ) → a ≤ length input → drop a input ≡ take (length input - a) (drop a input)
    to_end a p =
        segment a (length input) input p
        ∙ ap (λ r. take (length input - a) (drop a input) ++ r) (drop_all input)
        ∙ append-nil _

    three :
        (a b c : ℕ)
        → a ≤ b
        → b ≤ c
        → drop a input
          ≡ take (b - a) (drop a input) ++ (take (c - b) (drop b input) ++ drop c input)
    three a b c p q =
        segment a b input p ∙ ap (λ r. take (b - a) (drop a input) ++ r) (segment b c input q)

    weave_lem :
        (a : ℕ) (entities : List Token)
        → a ≤ length input
        → IsDisjoint a entities
        → All (Fits input) entities
        → (ts : List Token) × (weave u input a entities ≡ some ts)
          × (lower u (spelled ts) ≡ lower u (drop a input))
    unfolding weave
    weave_lem a [] p d f =
        let (ts, run, spells) = gap_lem a (length input) p (omega arith) in
        (ts, run, spells ∙ ap (lower u) (sym (to_end a p)))
    weave_lem a (e ∷ entities) p d f =
        let (ts, run, spells) = gap_lem a e.start_pos d.0 (omega arith) in
        let (ts', run', spells') = weave_lem e.end_pos entities f.0.1 d.1 f.1 in
        (
          ts ++ e ∷ ts',
          rw (run, run'),
          ap (lower u) (spelled-append ts (e ∷ ts'))
              ∙ joined ts e.value (spelled ts') _ _ _ spells f.0.2 spells'
              ∙ ap (lower u) (sym (three a e.start_pos e.end_pos d.0 f.0.0)),
        )

-- Where every match lies in the input, `entityTokenize` slices nowhere out of range, and its tokens
-- spell the input, up to case. (Lower-casing is assumed to leave lower-cased runes alone.)
pub entity_tokenize_covers :
    (u : Unicode) (rules : List EntityRule) (input : Text)
    → ((c : ℕ) → u.to_lower (u.to_lower c) ≡ u.to_lower c)
    → All (IsInBounds input) rules
    → (ts : List Token) × (entity_tokenize u rules input ≡ some ts)
      × (lower u (spelled ts) ≡ lower u input)
unfolding entity_tokenize
entity_tokenize_covers u rules input fixed h =
    let (l, run, fits) = potential_lem rules input h in
    let (ts, run', spells) =
      weave_lem u fixed input 0 (select 0 (sort_stable l)) (omega arith)
        (select-IsDisjoint 0 (sort_stable l))
        (select-All (Fits input) 0 (sort_stable l)
          (sort_stable-All (λ a. Fits input a.token) l fits)) in
    (ts, rw run run', spells)
