-- ===== src/Proximity/Chains.antt =====
-- The loop over the further words ends with the least position that a chain from `last` reaches.
use monocle.Prelude.{
  ℕ, suc, ◌≤◌, ◌<◌, ◌≡◌, refl, ◌∙◌, ltb, leb, leb→le, ltb→lt, ◌==◌, ==_iff, true, false, List, [],
  ◌∷◌, some, length, get_elem?, arith, Bool-cases, drop-get_elem?, get_elem?-bound, inl, inr, All,
}
use monocle.Proximity.{Position, bs, Chase, ended, broken, no_positions, chase}
use monocle.Proximity.Bound.{IsSorted, Splits, bs_lem}

-- One position of each word, each after the one before: from `last` they end at `end`.
pub data Chain : ℕ → List (List Position) → ℕ → Type 0 where
  stop : {last : ℕ} → Chain last [] last
  step :
      {last end : ℕ} {arr : List Position} {positions : List (List Position)} (n : ℕ) (p : Position)
      → get_elem? arr n ≡ some p
      → last < p.i
      → Chain p.i positions end
      → Chain last (arr ∷ positions) end

pub Chain-le :
    {last end : ℕ} (positions : List (List Position)) → Chain last positions end → last ≤ end
Chain-le [] stop = omega arith
Chain-le (arr ∷ positions) (step n p at lt c) = omega (arith, lt, Chain-le positions c)

-- No chain starts at `last` or later.
abbrev pub NoChain : ℕ → List (List Position) → Type 0
NoChain last positions = (later end : ℕ) → last ≤ later → Chain later positions end → ⊥

-- What the loop's end says of the chains from `last` or later.
abbrev pub Outcome : ℕ → List (List Position) → Chase → Type 0
Outcome last positions (ended e) =
    Chain last positions e × ((later end : ℕ) → last ≤ later → Chain later positions end → e ≤ end)
Outcome last positions broken = NoChain last positions
Outcome last positions no_positions = NoChain 0 positions

unfoldable pub Chased : ℕ → List (List Position) → Type 0
Chased last positions =
    (c : Chase) × (chase (length positions) positions last ≡ some c) × Outcome last positions c

chase_on :
    (arr : List Position) (positions : List (List Position)) (last k : ℕ) (p : Position)
    → (length arr == 0) ≡ false
    → bs arr last ≡ some k
    → leb (length arr) k ≡ false
    → get_elem? arr k ≡ some p
    → chase (suc (length positions)) (arr ∷ positions) last ≡ chase (length positions) positions p.i
unfolding chase
chase_on arr positions last k p a b c d = ground arith

chase_broken :
    (arr : List Position) (positions : List (List Position)) (last k : ℕ)
    → (length arr == 0) ≡ false
    → bs arr last ≡ some k
    → leb (length arr) k ≡ true
    → chase (suc (length positions)) (arr ∷ positions) last ≡ some broken
unfolding chase
chase_broken arr positions last k a b c = ground arith

chase_empty :
    (arr : List Position) (positions : List (List Position)) (last : ℕ)
    → (length arr == 0) ≡ true
    → chase (suc (length positions)) (arr ∷ positions) last ≡ some no_positions
unfolding chase
chase_empty arr positions last a = ground arith

uncons :
    {last end : ℕ} (arr : List Position) (positions : List (List Position))
    → Chain last (arr ∷ positions) end
    → (n : ℕ) × (p : Position) × (get_elem? arr n ≡ some p) × (last < p.i) × Chain p.i positions end
uncons arr positions (step n p at lt c) = (n, p, at, lt, c)

module _ (arr : List Position) (last k : ℕ) (p : Position) (sorted : IsSorted arr)
    (s : Splits arr last k k) (at : get_elem? arr k ≡ some p) where
  p_first :
      (later n : ℕ) (q : Position)
      → last ≤ later
      → get_elem? arr n ≡ some q
      → later < q.i
      → p.i ≤ q.i
  p_first later n q le here lt = elim (Bool-cases (ltb n k)) [
    | inl before ↦ absurd (omega (arith, s.low n q (ltb→lt n k before) here, le, lt))
    | inr after ↦ sorted k n p q (ground (arith, after)) at here
  ]

  extend :
      (positions : List (List Position)) (c : Chase)
      → Outcome p.i positions c
      → Outcome last (arr ∷ positions) c
  extend positions (ended e) (chain, least) = (
    step k p at (s.high k p (omega arith) at) chain,
    λ later end le c.
        let (n, q, here, lt, rest) = uncons arr positions c in
        least q.i end (p_first later n q le here lt) rest,
  )
  extend positions broken none_left = λ later end le c.
      let (n, q, here, lt, rest) = uncons arr positions c in
      none_left q.i end (p_first later n q le here lt) rest
  extend positions no_positions none_left = λ later end le c.
      let (n, q, here, lt, rest) = uncons arr positions c in none_left q.i end (omega arith) rest

nothing_left :
    (arr : List Position) (positions : List (List Position)) (last k : ℕ)
    → Splits arr last k k
    → length arr ≤ k
    → NoChain last (arr ∷ positions)
nothing_left arr positions last k s h = λ later end le c.
    let (n, q, here, lt, rest) = uncons arr positions c in
    omega (arith, s.low n q (omega (arith, get_elem?-bound arr n q here)) here, le, lt)

pub chase_lem :
    (last : ℕ) (positions : List (List Position)) → All IsSorted positions → Chased last positions
unfolding Chased
chase_lem last [] h =
    (ended last, unfold chase in refl, (stop, λ later end le c. omega (arith, Chain-le [] c, le)))
chase_lem last (arr ∷ positions) (sorted, h) = elim (Bool-cases (length arr == 0)) [
  | inl nil ↦ (
    no_positions,
    chase_empty arr positions last nil,
    λ later end le c.
        let (n, q, here, lt, rest) = uncons arr positions c in
        omega (arith, get_elem?-bound arr n q here, (==_iff (length arr) 0).0 nil),
  )
  | inr some_there ↦
      let (k, run, s) = bs_lem arr last sorted in
      elim (Bool-cases (leb (length arr) k)) [
        | inl past ↦ (
          broken,
          chase_broken arr positions last k some_there run past,
          nothing_left arr positions last k s (leb→le (length arr) k past),
        )
        | inr within ↦
            let (p, at, _) = drop-get_elem? arr k (ground arith) in
            let (c, more, out) = chase_lem p.i positions h in
            (
              c,
              chase_on arr positions last k p some_there run within at ∙ more,
              extend arr last k p sorted s at positions c out,
            )
      ]
]
