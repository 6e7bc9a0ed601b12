-- ===== src/SpellChecker.antt =====
-- internal/app/indexer/spellChecker/spellChecker.go: `SpellChecker`, `levenshteinDistance` and
-- `BestReplacement`. A word is its runes; `none` is an index out of range, where Go panics.
pub mod Script
pub mod Optimal
pub mod Table
pub mod Distance
pub mod Replacement
mod Tests
use monocle.Prelude.{
  ℕ, suc, ◌+◌, ◌-◌, min, Option, none, some, List, [], ◌∷◌, ◌++◌, Bool, true, false, ◌&&◌, ◌||◌,
  ltb, leb, ◌==◌, if◌then◌else◌, length, get_elem?, last?,
}
use monocle.Prelude.Maybe.{◌>>=◌, for_range}
use monocle.Prelude.Text.{Text}

pub record SpellChecker : Type 0 where
  pub max_typo : ℕ
  pub ngram_count : ℕ

-- `NewSpellChecker`
unfoldable pub new_spell_checker : ℕ → ℕ → SpellChecker
new_spell_checker max_typo_len ngc = record { max_typo = max_typo_len; ngram_count = ngc }

-- `token`
pub record Token : Type 0 where
  pub s : Text
  pub score : ℕ

-- The `[][]int` of the dynamic program, all of whose rows have `cols` cells.
pub record Matrix : Type 0 where
  pub rows : ℕ
  pub cols : ℕ
  pub cell : ℕ → ℕ → ℕ

-- The first loop: `make([]int, w2+1)` in each of the `w1+1` rows.
unfoldable pub make : ℕ → ℕ → Matrix
make rows cols = record { rows = rows; cols = cols; cell = λ i j. 0 }

unfoldable pub read : Matrix → ℕ → ℕ → Option ℕ
read m i j = if ltb i m.rows && ltb j m.cols then some (m.cell i j) else none

unfoldable pub write : Matrix → ℕ → ℕ → ℕ → Option Matrix
write m i j v =
    if ltb i m.rows && ltb j m.cols
    then some (record m { cell = λ a b. if a == i && b == j then v else m.cell a b })
    else none

-- The two branches of the innermost loop.
unfoldable pub take_diagonal : ℕ → ℕ → Matrix → Option Matrix
take_diagonal i j dp = do diagonal ← read dp (i - 1) (j - 1); write dp i j diagonal

unfoldable pub take_least : ℕ → ℕ → Matrix → Option Matrix
take_least i j dp = do
  insert ← read dp (i - 1) j
  delete ← read dp i (j - 1)
  replace ← read dp (i - 1) (j - 1)
  write dp i j (min (min delete insert) replace + 1)

module _ (word1 word2 : Text) where
  -- The body of the innermost loop.
  unfoldable pub fill_cell : ℕ → ℕ → Matrix → Option Matrix
  fill_cell i j dp = do
    x ← get_elem? word1 (i - 1)
    y ← get_elem? word2 (j - 1)
    if x == y then take_diagonal i j dp else take_least i j dp

  unfoldable pub fill_row : ℕ → Matrix → Option Matrix
  fill_row i dp = for_range (length word2) 1 (fill_cell i) dp

  -- The borders, and then every row.
  unfoldable pub fill_table : Option Matrix
  fill_table = do
    left ←
        for_range (length word1) 1 (λ i dp. write dp i 0 i)
          (make (length word1 + 1) (length word2 + 1))
    border ← for_range (length word2) 1 (λ j dp. write dp 0 j j) left
    for_range (length word1) 1 fill_row border

-- `-` stops at 0 where Go's difference is negative; the tests agree, since `maxTypo` is not negative.
unfoldable pub levenshtein_distance : SpellChecker → Text → Text → Option ℕ
levenshtein_distance s word1 word2 =
    let w1 = length word1 in
    let w2 = length word2 in
    if ltb s.max_typo (w1 - w2) || ltb s.max_typo (w2 - w1)
    then some (s.max_typo + 1)
    else (do dp ← fill_table word1 word2; read dp w1 w2)

-- The test under which the loop of `BestReplacement` pushes a candidate.
unfoldable pub pushes : List Token → ℕ → Bool
pushes st distance = elim (last? st) [ none ↦ true | some top ↦ leb distance top.score ]

-- What follows the loop of `BestReplacement`.
unfoldable pub settle : SpellChecker → Text → List Token → Option Text
settle s s1 st = do top ← last? st; if ltb s.max_typo top.score then some s1 else some top.s

-- The loop of `BestReplacement`, with what follows it.
unfoldable pub choose : SpellChecker → Text → List Text → List Token → Option Text
choose s s1 [] st = settle s s1 st
choose s s1 (candidate ∷ candidates) st = do
  distance ← levenshtein_distance s s1 candidate
  let pushed = st ++ record { s = candidate; score = distance } ∷ []
  let rest = choose s s1 candidates (if pushes st distance then pushed else st)
  if leb distance s.max_typo then some candidate else rest

unfoldable pub best_replacement : SpellChecker → Text → List Text → Option Text
best_replacement s s1 [] = some s1
best_replacement s s1 (candidate ∷ candidates) = choose s s1 (candidate ∷ candidates) []
