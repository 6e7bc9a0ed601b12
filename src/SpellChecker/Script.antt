-- ===== src/SpellChecker/Script.antt =====
-- What an edit is, apart from any table: a script of edits turns one word into another.
use monocle.Prelude.{ℕ, ◌+◌, ◌≤◌, ◌≡◌, Option, none, some, List, [], ◌∷◌}
use monocle.Prelude.Text.{Text}
use monocle.Prelude.Maybe.{◌>>=◌}

pub data Edit : Type 0 where
  keep : Edit
  drop : Edit
  add : ℕ → Edit
  swap : ℕ → Edit

-- Reads the word from the left; `none` if the script does not fit it.
abbrev pub apply : List Edit → Text → Option Text
apply [] [] = some []
apply [] (x ∷ w) = none
apply (keep ∷ e) [] = none
apply (keep ∷ e) (x ∷ w) = do v ← apply e w; some (x ∷ v)
apply (drop ∷ e) [] = none
apply (drop ∷ e) (x ∷ w) = apply e w
apply (add y ∷ e) w = do v ← apply e w; some (y ∷ v)
apply (swap y ∷ e) [] = none
apply (swap y ∷ e) (x ∷ w) = do v ← apply e w; some (y ∷ v)

-- Every edit but `keep` costs one.
abbrev pub cost : List Edit → ℕ
cost [] = 0
cost (keep ∷ e) = cost e
cost (drop ∷ e) = cost e + 1
cost (add y ∷ e) = cost e + 1
cost (swap y ∷ e) = cost e + 1

-- `w` can be turned into `v` at a cost of at most `n`.
abbrev pub Within : ℕ → Text → Text → Type 0
Within n w v = (e : List Edit) × (apply e w ≡ some v) × (cost e ≤ n)
