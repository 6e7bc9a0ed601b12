-- ===== src/Proximity/Least.antt =====
-- The distance of the query words: the least over all choices of positions in the words' order.
use monocle.Prelude.{
  ℕ, zero, suc, ◌-◌, ◌≤◌, ◌≡◌, refl, sym, ◌∙◌, ap, ltb, List, [], ◌∷◌, some, length, get_elem?,
  arith, Bool-cases, ◌⊎◌, inl, inr, All, min,
}
use mathlib.Core.Path.{subst}
use monocle.Proximity.{
  Position, Chase, ended, broken, no_positions, chase, starts, max_int, get_min_query_dist_in_doc,
}
use monocle.Proximity.Bound.{IsSorted}
use monocle.Proximity.Chains.{Chain, Chain-le, NoChain, Outcome, Chased, chase_lem}

-- No chain from a position in `first` is shorter than `d`, and one is as long.
abbrev pub Lower : List Position → List (List Position) → ℕ → Type 0
Lower first positions d =
    (n : ℕ) (p : Position) (end : ℕ)
    → get_elem? first n ≡ some p
    → Chain p.i positions end
    → d ≤ end - p.i

abbrev pub Attained : List Position → List (List Position) → ℕ → Type 0
Attained first positions d =
    (n : ℕ) × (p : Position) × (end : ℕ) × (get_elem? first n ≡ some p)
    × Chain p.i positions end
    × (d ≡ end - p.i)

-- The least distance, cut off at `bound`.
pub record IsLeast (first : List Position) (positions : List (List Position)) (bound d : ℕ)
    : Type 0 where
  pub below : d ≤ bound
  pub lower : Lower first positions d
  pub attained : (d ≡ bound) ⊎ Attained first positions d

module _ (positions : List (List Position)) (s : Position) (rest : List Position) where
  lower_cons :
      (d : ℕ)
      → ((end : ℕ) → Chain s.i positions end → d ≤ end - s.i)
      → Lower rest positions d
      → Lower (s ∷ rest) positions d
  lower_cons d h l zero p end at c =
      let s=p : s ≡ p = cc in
      omega (
        arith,
        h end (subst (λ (q : Position). Chain q.i positions end) (sym s=p) c),
        ap (λ (q : Position). q.i) s=p,
      )
  lower_cons d h l (suc n) p end at c = l n p end at c

  later : (d : ℕ) → Attained rest positions d → Attained (s ∷ rest) positions d
  later d (n, p, end, at, c, e) = (suc n, p, end, at, c, e)

  without :
      (bound d : ℕ)
      → NoChain s.i positions
      → IsLeast rest positions bound d
      → IsLeast (s ∷ rest) positions bound d
  without bound d alone l = record {
    below = l.below;
    lower = lower_cons d (λ end c. absurd (alone s.i end (omega arith) c)) l.lower;
    attained = elim l.attained [ inl e ↦ inl e | inr a ↦ inr (later d a) ];
  }

  within :
      (bound d last : ℕ)
      → Chain s.i positions last
      → ((end : ℕ) → Chain s.i positions end → last ≤ end)
      → IsLeast rest positions (min bound (last - s.i)) d
      → IsLeast (s ∷ rest) positions bound d
  within bound d last c least l = record {
    below = omega (arith, l.below);
    lower = lower_cons d (λ end c'. omega (arith, l.below, least end c')) l.lower;
    attained = elim l.attained [
      | inr a ↦ inr (later d a)
      | inl e ↦ elim (Bool-cases (ltb bound (last - s.i))) [
        | inl small ↦ inl (ground (arith, e, small))
        | inr big ↦ inr (0, s, last, refl, c, ground (arith, e, big))
      ]
    ];
  }

Started : List (List Position) → ℕ → List Position → Type 0
Started positions bound first =
    (d : ℕ) × (starts (length positions) positions bound first ≡ some d)
    × IsLeast first positions bound d

module _ (positions : List (List Position)) (s : Position) (rest : List Position) where
  starts_stop :
      (bound : ℕ)
      → chase (length positions) positions s.i ≡ some no_positions
      → starts (length positions) positions bound (s ∷ rest) ≡ some bound
  unfolding starts
  starts_stop bound h = ground arith

  starts_broken :
      (bound : ℕ)
      → chase (length positions) positions s.i ≡ some broken
      → starts (length positions) positions bound (s ∷ rest)
        ≡ starts (length positions) positions bound rest
  unfolding starts
  starts_broken bound h = ground arith

  starts_ended :
      (bound last : ℕ)
      → chase (length positions) positions s.i ≡ some (ended last)
      → s.i ≤ last
      → starts (length positions) positions bound (s ∷ rest)
        ≡ starts (length positions) positions (min bound (last - s.i)) rest
  unfolding starts
  starts_ended bound last h le = ground arith

  -- One more position of the first word, by the way its chase ends.
  one_more :
      (bound : ℕ) (c : Chase)
      → chase (length positions) positions s.i ≡ some c
      → Outcome s.i positions c
      → ((b : ℕ) → Started positions b rest)
      → Started positions bound (s ∷ rest)
  unfolding Started
  one_more bound no_positions run none_left go = (
    bound,
    starts_stop bound run,
    record {
      below = omega arith;
      lower = λ n p end at c. absurd (none_left p.i end (omega arith) c);
      attained = inl refl;
    },
  )
  one_more bound broken run none_left go =
      let (d, more, l) = go bound in
      (d, starts_broken bound run ∙ more, without positions s rest bound d none_left l)
  one_more bound (ended last) run (c, least) go =
      let (d, more, l) = go (min bound (last - s.i)) in
      (
        d,
        starts_ended bound last run (Chain-le positions c) ∙ more,
        within positions s rest bound d last c (λ end c'. least s.i end (omega arith) c') l,
      )

starts_lem :
    (positions : List (List Position)) (bound : ℕ) (first : List Position)
    → All IsSorted positions
    → Started positions bound first
unfolding Started Chased
starts_lem positions bound [] h = (
  bound,
  unfold starts in refl,
  record { below = omega arith; lower = λ n p end at c. absurd cc; attained = inl refl },
)
starts_lem positions bound (s ∷ rest) h =
    let (c, run, out) = chase_lem s.i positions h in
    one_more positions s rest bound c run out (λ b. starts_lem positions b rest h)

-- On sorted positions the distance is found within the searches' fuel, with no index out of range, and is the least
-- distance from a position of the first word through later and later positions of the other words, or math.MaxInt
-- where that is less or no such positions exist.
pub get_min_query_dist_in_doc-IsLeast :
    (first : List Position) (positions : List (List Position))
    → All IsSorted positions
    → (d : ℕ) × (get_min_query_dist_in_doc (first ∷ positions) (length (first ∷ positions))
        ≡ some d)
      × IsLeast first positions max_int d
unfolding get_min_query_dist_in_doc Started
get_min_query_dist_in_doc-IsLeast first positions h =
    let (d, run, l) = starts_lem positions max_int first h in
    (d, ap (λ n. starts n positions max_int first) (omega arith) ∙ run, l)
