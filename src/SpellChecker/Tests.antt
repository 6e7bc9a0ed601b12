-- ===== src/SpellChecker/Tests.antt =====
-- Runs of the spell checker, and its theorems at concrete words.
use monocle.Prelude.{ℕ, ◌≤◌, ◌≡◌, refl, some, List, [], ◌∷◌}
use monocle.Prelude.Maybe.{for_range}
use monocle.Prelude.Text.{Text, codes}
use monocle.SpellChecker.{
  SpellChecker, make, read, write, take_diagonal, take_least, fill_cell, fill_row, fill_table,
  levenshtein_distance, pushes, settle, choose, best_replacement, new_spell_checker,
}
use monocle.SpellChecker.Script.{Edit, apply, cost}
use monocle.SpellChecker.Distance.{levenshtein_distance_least}
use monocle.SpellChecker.Replacement.{IsFirstNear, best_replacement_first}

program : Unit {0}
unfolding for_range make read write take_diagonal take_least fill_cell fill_row fill_table
    levenshtein_distance pushes settle choose best_replacement new_spell_checker
program = tt

abbrev two_typos : SpellChecker
two_typos = record { max_typo = 2; ngram_count = 3 }

kitten : levenshtein_distance (new_spell_checker 4 3) (codes "kitten") (codes "sitting") ≡ some 3
unfolding program
kitten = refl

too_long : levenshtein_distance two_typos (codes "a") (codes "abcd") ≡ some 3
unfolding program
too_long = refl

-- The first candidate that is near enough wins over a nearer one behind it.
first_wins :
    best_replacement two_typos
      (codes "serch")
      (codes "ranking" ∷ codes "perch" ∷ codes "search" ∷ [])
    ≡ some (codes "perch")
unfolding program
first_wins = refl

levenshtein_distance_least_example :
    (d : ℕ) × (levenshtein_distance two_typos (codes "serch") (codes "search") ≡ some d)
    × ((e : List Edit) → apply e (codes "serch") ≡ some (codes "search") → d ≤ cost e)
    × (d ≤ 2 → (e : List Edit) × (apply e (codes "serch") ≡ some (codes "search")) × (cost e ≡ d))
levenshtein_distance_least_example =
    levenshtein_distance_least two_typos (codes "serch") (codes "search")

best_replacement_first_example :
    (r : Text) × (best_replacement two_typos (codes "serch") (codes "ranking" ∷ codes "search" ∷ [])
      ≡ some r)
    × IsFirstNear two_typos (codes "serch") (codes "ranking" ∷ codes "search" ∷ []) r
best_replacement_first_example =
    best_replacement_first two_typos (codes "serch") (codes "ranking" ∷ codes "search" ∷ [])
