-- ===== src/Indexer/Sorted.antt =====
-- The places of a word are listed in ascending order.
use monocle.Prelude.{
  ℕ, zero, suc, ◌≤◌, ◌≡◌, sym, ◌∙◌, ap, List, [], ◌∷◌, none, some, get_elem?, arith, Bool-cases,
  inl, inr,
}
use monocle.Prelude.Text.{Text, eqb}
use monocle.Proximity.{Position}
use monocle.Proximity.Bound.{IsSorted}
use monocle.Indexer.Places.{Sequence, places}

at_of : {p q : Position} → some p ≡ some q → p.i ≡ q.i
at_of e = ap (elim [ none ↦ 0 | some r ↦ r.i ]) e

-- No position of the list is before `i`.
abbrev From : ℕ → List Position → Type 0
From i arr = (n : ℕ) (p : Position) → get_elem? arr n ≡ some p → i ≤ p.i

From-cons :
    (i : ℕ) (p : Position) (arr : List Position) → i ≤ p.i → From (suc i) arr → From i (p ∷ arr)
From-cons i p arr h f zero q e = omega (arith, h, at_of e)
From-cons i p arr h f (suc n) q e = omega (arith, f n q e)

cons-IsSorted :
    (p : Position) (arr : List Position) → From p.i arr → IsSorted arr → IsSorted (p ∷ arr)
cons-IsSorted p arr f h zero zero x y le a b = omega (arith, at_of (sym a ∙ b))
cons-IsSorted p arr f h zero (suc n) x y le a b = omega (arith, at_of a, f n y b)
cons-IsSorted p arr f h (suc m) zero x y le a b = absurd (omega (arith, le))
cons-IsSorted p arr f h (suc m) (suc n) x y le a b = h m n x y (omega (arith, le)) a b

places-From : (w : Text) (i : ℕ) (s : Sequence) → From i (places w i s)
places-From w i [] = λ n p e. absurd cc
places-From w i ((v, kind) ∷ s) = elim (Bool-cases (eqb v w)) [
  | inl same ↦ rw same (
      From-cons i (record { i = i; kind = kind }) (places w (suc i) s) (omega arith)
        (places-From w (suc i) s))
  | inr other ↦ rw other (λ n p e. omega (arith, places-From w (suc i) s n p e))
]

pub places-IsSorted : (w : Text) (i : ℕ) (s : Sequence) → IsSorted (places w i s)
places-IsSorted w i [] = λ m n p q le a b. absurd cc
places-IsSorted w i ((v, kind) ∷ s) = elim (Bool-cases (eqb v w)) [
  | inl same ↦ rw same (
      cons-IsSorted (record { i = i; kind = kind }) (places w (suc i) s)
        (λ n p e. omega (arith, places-From w (suc i) s n p e)) (places-IsSorted w (suc i) s))
  | inr other ↦ rw other (places-IsSorted w (suc i) s)
]
