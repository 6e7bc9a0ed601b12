-- ===== src/Proximity/Bound.antt =====
-- The binary search: on sorted positions it splits them at the target.
use monocle.Prelude.{
  ℕ, zero, suc, ◌+◌, ◌/◌, ◌≤◌, ◌<◌, ◌≡◌, ◌∙◌, ltb, leb, leb→le, ltb→lt, true, false, List, some,
  length, get_elem?, arith, Bool-cases, drop-get_elem?, get_elem?-bound, inl, inr,
}
use monocle.Proximity.{Position, bs_loop, bs}

-- Positions in ascending order.
abbrev pub IsSorted : List Position → Type 0
IsSorted arr =
    (m n : ℕ) (p q : Position)
    → m ≤ n
    → get_elem? arr m ≡ some p
    → get_elem? arr n ≡ some q
    → p.i ≤ q.i

-- Below `l` no position is over the target, from `r` on all are.
pub record Splits (arr : List Position) (target l r : ℕ) : Type 0 where
  pub low : (n : ℕ) (p : Position) → n < l → get_elem? arr n ≡ some p → p.i ≤ target
  pub high : (n : ℕ) (p : Position) → r ≤ n → get_elem? arr n ≡ some p → target < p.i

bs_loop_done :
    (fuel : ℕ) (arr : List Position) (target l r : ℕ)
    → ltb l r ≡ false
    → bs_loop fuel arr target l r ≡ some l
unfolding bs_loop
bs_loop_done zero arr target l r h = ground arith
bs_loop_done (suc fuel) arr target l r h = ground arith

bs_loop_right :
    (fuel : ℕ) (arr : List Position) (target l r : ℕ) (p : Position)
    → ltb l r ≡ true
    → get_elem? arr ((l + r) / 2) ≡ some p
    → leb p.i target ≡ true
    → bs_loop (suc fuel) arr target l r ≡ bs_loop fuel arr target ((l + r) / 2 + 1) r
unfolding bs_loop
bs_loop_right fuel arr target l r p h at low = ground arith

bs_loop_left :
    (fuel : ℕ) (arr : List Position) (target l r : ℕ) (p : Position)
    → ltb l r ≡ true
    → get_elem? arr ((l + r) / 2) ≡ some p
    → leb p.i target ≡ false
    → bs_loop (suc fuel) arr target l r ≡ bs_loop fuel arr target l ((l + r) / 2)
unfolding bs_loop
bs_loop_left fuel arr target l r p h at high = ground arith

narrowed :
    (arr : List Position) (target l r : ℕ) → r ≤ l → Splits arr target l r → Splits arr target l l
narrowed arr target l r h s = record {
  low = s.low;
  high = λ n p k e. s.high n p (omega (arith, h, k)) e;
}

raised :
    (arr : List Position) (target l r m : ℕ) (p : Position)
    → IsSorted arr
    → get_elem? arr m ≡ some p
    → p.i ≤ target
    → Splits arr target l r
    → Splits arr target (m + 1) r
raised arr target l r m p sorted at low s = record {
  low = λ n q k e. omega (arith, sorted n m q p (omega (arith, k)) e at, low);
  high = s.high;
}

lowered :
    (arr : List Position) (target l r m : ℕ) (p : Position)
    → IsSorted arr
    → get_elem? arr m ≡ some p
    → target < p.i
    → Splits arr target l r
    → Splits arr target l m
lowered arr target l r m p sorted at over s = record {
  low = s.low;
  high = λ n q k e. omega (arith, sorted m n p q k at e, over);
}

bs_loop_lem :
    (fuel : ℕ) (arr : List Position) (target l r : ℕ)
    → IsSorted arr
    → l ≤ r
    → r ≤ length arr
    → r ≤ l + fuel
    → Splits arr target l r
    → (k : ℕ) × (bs_loop fuel arr target l r ≡ some k) × Splits arr target k k
bs_loop_lem zero arr target l r sorted p q f s =
    (l, bs_loop_done zero arr target l r (ground arith), narrowed arr target l r (omega arith) s)
bs_loop_lem (suc fuel) arr target l r sorted p q f s = elim (Bool-cases (ltb l r)) [
  | inr closed ↦
      (l, bs_loop_done (suc fuel) arr target l r closed, narrowed arr target l r (ground arith) s)
  | inl wide ↦
      let lt : l < r = ltb→lt l r wide in
      let m = (l + r) / 2 in
      let (x, at, _) = drop-get_elem? arr m (omega arith) in
      elim (Bool-cases (leb x.i target)) [
        | inl low ↦
            let (k, run, t) =
              bs_loop_lem fuel arr target (m + 1) r sorted (omega arith) q (omega arith)
                (raised arr target l r m x sorted at (leb→le x.i target low) s) in
            (k, bs_loop_right fuel arr target l r x wide at low ∙ run, t)
        | inr high ↦
            let (k, run, t) =
              bs_loop_lem fuel arr target l m sorted (omega arith) (omega arith) (omega arith)
                (lowered arr target l r m x sorted at (ground (arith, high)) s) in
            (k, bs_loop_left fuel arr target l r x wide at high ∙ run, t)
      ]
]

-- The search ends and indexes nothing out of range; all positions before its result are at most the target, and all
-- from it on are over the target.
pub bs_lem :
    (arr : List Position) (target : ℕ)
    → IsSorted arr
    → (k : ℕ) × (bs arr target ≡ some k) × Splits arr target k k
unfolding bs
bs_lem arr target sorted =
    bs_loop_lem (length arr) arr target 0 (length arr) sorted (omega arith) (omega arith)
      (omega arith)
      (record {
        low = λ n p h e. absurd (omega (arith, h));
        high = λ n p h e. absurd (omega (arith, h, get_elem?-bound arr n p e));
      })
