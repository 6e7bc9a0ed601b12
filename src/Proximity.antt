-- ===== src/Proximity.antt =====
-- internal/app/searcher/preprocessingFeatures.go: `getMinQueryDistInDoc`, and `Position` of internal/model/document.go.
-- `none` is an index out of range, or a loop that has used up its fuel.
pub mod Bound
pub mod Chains
pub mod Least
mod Tests
use monocle.Prelude.{
  ℕ, zero, suc, ◌+◌, ◌-◌, ◌/◌, ◌^◌, min, ltb, leb, ◌==◌, if◌then◌else◌, true, false, List, [], ◌∷◌,
  Option, none, some, length, get_elem?,
}
use monocle.Prelude.Maybe.{◌>>=◌}

pub record Position : Type 0 where
  pub i : ℕ
  pub kind : ℕ

-- The loop of `bs` between `l` and `r`.
unfoldable pub bs_loop : ℕ → List Position → ℕ → ℕ → ℕ → Option ℕ
bs_loop zero arr target l r = if ltb l r then none else some l
bs_loop (suc fuel) arr target l r = elim (ltb l r) [
  | false ↦ some l
  | true ↦ elim (get_elem? arr ((l + r) / 2)) [
    | none ↦ none
    | some p ↦ elim (leb p.i target) [
      | true ↦ bs_loop fuel arr target ((l + r) / 2 + 1) r
      | false ↦ bs_loop fuel arr target l ((l + r) / 2)
    ]
  ]
]

-- Every round shortens the interval, so the array's length bounds the rounds.
unfoldable pub bs : List Position → ℕ → Option ℕ
bs arr target = bs_loop (length arr) arr target 0 (length arr)

-- How the loop over the further words ends: with `last`, with its `break`, or with the early return.
pub data Chase : Type 0 where
  ended : ℕ → Chase
  broken : Chase
  no_positions : Chase

-- The loop over `j`; the first argument counts the words that are left.
unfoldable pub chase : ℕ → List (List Position) → ℕ → Option Chase
chase zero positions last = some (ended last)
chase (suc n) [] last = none
chase (suc n) (arr ∷ positions) last = elim (length arr == 0) [
  | true ↦ some no_positions
  | false ↦ elim (bs arr last) [
    | none ↦ none
    | some position ↦ elim (leb (length arr) position) [
      | true ↦ some broken
      | false ↦ elim (get_elem? arr position) [ none ↦ none | some p ↦ chase n positions p.i ]
    ]
  ]
]

-- The loop over the positions of the first word.
unfoldable pub starts : ℕ → List (List Position) → ℕ → List Position → Option ℕ
starts n positions min_dencity [] = some min_dencity
starts n positions min_dencity (start_pos ∷ rest) = elim (chase n positions start_pos.i) [
  | none ↦ none
  | some no_positions ↦ some min_dencity
  | some broken ↦ starts n positions min_dencity rest
  | some (ended last) ↦
      starts n positions
        (if ltb last start_pos.i then min_dencity else min min_dencity (last - start_pos.i)) rest
]

-- `math.MaxInt`
abbrev pub max_int : ℕ
max_int = 9223372036854775807

unfoldable pub get_min_query_dist_in_doc : List (List Position) → ℕ → Option ℕ
get_min_query_dist_in_doc [] len_query = none
get_min_query_dist_in_doc (first ∷ positions) len_query =
    starts (len_query - 1) positions max_int first
