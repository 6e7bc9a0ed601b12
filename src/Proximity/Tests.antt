-- ===== src/Proximity/Tests.antt =====
-- The distance on concrete positions.
use monocle.Prelude.{ℕ, zero, suc, ◌≤◌, ap, sym, ◌∙◌, ◌≡◌, refl, List, [], ◌∷◌, none, some, arith}
use monocle.Proximity.{Position, bs_loop, bs, chase, starts, max_int, get_min_query_dist_in_doc}
use monocle.Proximity.Bound.{IsSorted}
use monocle.Proximity.Least.{IsLeast, get_min_query_dist_in_doc-IsLeast}

abbrev body : ℕ → Position
body n = record { i = n; kind = 98 }

abbrev cats : List Position
cats = body 1 ∷ (body 10 ∷ [])

abbrev dogs : List Position
dogs = body 7 ∷ (body 12 ∷ [])

cats_then_dogs : get_min_query_dist_in_doc (cats ∷ (dogs ∷ [])) 2 ≡ some 2
unfolding get_min_query_dist_in_doc starts chase bs bs_loop
cats_then_dogs = refl

dogs_then_cats : get_min_query_dist_in_doc (dogs ∷ (cats ∷ [])) 2 ≡ some 3
unfolding get_min_query_dist_in_doc starts chase bs bs_loop
dogs_then_cats = refl

at_of : {x y : Position} → some x ≡ some y → x.i ≡ y.i
at_of e = ap (elim [ none ↦ 0 | some r ↦ r.i ]) e

two-IsSorted : (p q : Position) → p.i ≤ q.i → IsSorted (p ∷ (q ∷ []))
two-IsSorted p q h zero zero x y le a b = omega (arith, at_of (sym a ∙ b))
two-IsSorted p q h zero (suc zero) x y le a b = omega (arith, h, at_of a, at_of b)
two-IsSorted p q h (suc zero) (suc zero) x y le a b = omega (arith, at_of (sym a ∙ b))
two-IsSorted p q h (suc m) zero x y le a b = absurd (omega (arith, le))
two-IsSorted p q h (suc zero) (suc (suc n)) x y le a b = absurd cc
two-IsSorted p q h zero (suc (suc n)) x y le a b = absurd cc
two-IsSorted p q h (suc (suc m)) n x y le a b = absurd cc

get_min_query_dist_in_doc-IsLeast_example :
    (d : ℕ) × (get_min_query_dist_in_doc (cats ∷ (dogs ∷ [])) 2 ≡ some d)
    × IsLeast cats (dogs ∷ []) max_int d
get_min_query_dist_in_doc-IsLeast_example =
    get_min_query_dist_in_doc-IsLeast cats (dogs ∷ [])
      (two-IsSorted (body 7) (body 12) (omega arith), tt)
