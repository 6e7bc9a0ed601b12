-- ===== src/Stemmer/Tests.antt =====
-- Runs of the stemmer, and its theorems at concrete words.
use mathlib.Core.List.{Perm}
use mathlib.Core.List.Perm
use monocle.Prelude.{◌*◌, ◌≤◌, ◌≡◌, refl, ◌↔◌, true, List, [], ◌∷◌, ◌++◌, arith}
use monocle.Prelude.Text.{codes, eqb}
use monocle.Prelude.Suffix.{has_suffix, trim_suffix, bytes, utf8, byte_length}
use monocle.Prelude.Unicode.{ascii}
use monocle.Stemmer.{
  Rule, Visit, IsVisit, step1a_rules, step1b_rules, step2_rules, step3_rules, step4_rules, contains,
  is_stop_word, ends_in, measure_from, measure, apply_first, measured, steps, stem,
}
use monocle.Stemmer.Measure.{turns, measure-turns}
use monocle.Stemmer.Shrink.{stem-eq-nil_iff, stem-le}
use monocle.Stemmer.Order.{step1a_order}

program : Unit {0}
unfolding eqb has_suffix trim_suffix bytes utf8 contains is_stop_word ends_in measure_from measure
    apply_first measured steps stem
program = tt

abbrev in_order : Visit
in_order = record {
  step1a = step1a_rules;
  step1b = step1b_rules;
  step2 = step2_rules;
  step3 = step3_rules;
  step4 = step4_rules;
}

in_order-IsVisit : IsVisit in_order
in_order-IsVisit = record {
  step1a = Perm.refl _;
  step1b = Perm.refl _;
  step2 = Perm.refl _;
  step3 = Perm.refl _;
  step4 = Perm.refl _;
}

ponies : stem ascii in_order (codes "ponies") ≡ codes "poni"
unfolding program
ponies = refl

stops : stem ascii in_order (codes "Which") ≡ []
unfolding program
stops = refl

troubles : measure (codes "troubles") ≡ 2
unfolding program
troubles = refl

-- The same word has two stems.
class_kept : stem ascii in_order (codes "class") ≡ codes "class"
unfolding program
class_kept = refl

class_cut :
    stem ascii
      (record in_order { step1a = (codes "s", []) ∷ (codes "ss", codes "ss") ∷ [] })
      (codes "class")
    ≡ codes "clas"
unfolding program
class_cut = refl

measure-turns_example :
    (measure (codes "oaten") ≡ turns (bytes (codes "oaten")))
    × (2 * measure (codes "oaten") ≤ byte_length (codes "oaten"))
measure-turns_example = measure-turns (codes "oaten")

stem-eq-nil_iff_example :
    (stem ascii in_order (codes "which") ≡ []) ↔ (is_stop_word ascii (codes "which") ≡ true)
unfolding bytes utf8
stem-eq-nil_iff_example = stem-eq-nil_iff ascii in_order (codes "which") (omega arith)

stem-le_example :
    byte_length (stem ascii in_order (codes "relational")) ≤ byte_length (codes "relational")
stem-le_example = stem-le ascii in_order (codes "relational") in_order-IsVisit

step1a_order_example :
    (o : List Rule) × (o' : List Rule) × Perm o step1a_rules
    × Perm o' step1a_rules
    × (apply_first ends_in o (codes "cla" ++ codes "ss") ≡ codes "cla" ++ codes "ss")
    × (apply_first ends_in o' (codes "cla" ++ codes "ss") ≡ codes "cla" ++ codes "s")
unfolding bytes utf8
step1a_order_example = step1a_order (codes "cla") (omega arith)
