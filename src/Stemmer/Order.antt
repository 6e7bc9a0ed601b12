-- ===== src/Stemmer/Order.antt =====
-- The stem depends on the order in which Go happens to visit the rules of a step.
use mathlib.Core.List.{Perm, perm_middle}
use mathlib.Core.List.Perm
use monocle.Prelude.{◌<◌, ◌≡◌, sym, ◌∙◌, append-nil, append_assoc, true, List, [], ◌∷◌, ◌++◌, arith}
use monocle.Prelude.Text.{Text, codes}
use monocle.Prelude.Suffix.{has_suffix-append, trim_suffix-append, byte_length, byte_length-append}
use monocle.Stemmer.{Rule, step1a_rules, ends_in, apply_first}

ends_in-append : (p s : Text) → 0 < byte_length p → ends_in (p ++ s) s ≡ true
unfolding ends_in
ends_in-append p s h = rw (has_suffix-append p s) (ground (arith, byte_length-append p s))

-- The rule that is visited first is applied to a word that has its suffix.
apply_first_here :
    (p s r : Text) (rules : List Rule)
    → 0 < byte_length p
    → apply_first ends_in ((s, r) ∷ rules) (p ++ s) ≡ p ++ r
unfolding apply_first
apply_first_here p s r rules h = rw (ends_in-append p s h, trim_suffix-append p s)

append-s : (p : Text) → p ++ codes "ss" ≡ (p ++ codes "s") ++ codes "s"
append-s p = sym (append_assoc p (codes "s") (codes "s"))

abbrev ss_first : List Rule
ss_first =
    (codes "ss", codes "ss")
    ∷ (codes "sses", codes "ss")
    ∷ (codes "ies", codes "i")
    ∷ (codes "s", [])
    ∷ []

abbrev s_first : List Rule
s_first =
    (codes "s", [])
    ∷ (codes "sses", codes "ss")
    ∷ (codes "ies", codes "i")
    ∷ (codes "ss", codes "ss")
    ∷ []

ss_first-perm : Perm ss_first step1a_rules
ss_first-perm = Perm.symm (
    perm_middle ((codes "sses", codes "ss") ∷ (codes "ies", codes "i") ∷ []) ((codes "s", []) ∷ []))

s_first-perm : Perm s_first step1a_rules
s_first-perm = Perm.symm (
    perm_middle
      ((codes "sses", codes "ss") ∷ (codes "ies", codes "i") ∷ (codes "ss", codes "ss") ∷ []) [])

-- A word that ends in "ss" keeps both letters, or loses one, by the order in which Go visits the
-- rules of step 1a: the step is no function of the word.
pub step1a_order :
    (p : Text)
    → 0 < byte_length p
    → (o : List Rule) × (o' : List Rule) × Perm o step1a_rules
      × Perm o' step1a_rules
      × (apply_first ends_in o (p ++ codes "ss") ≡ p ++ codes "ss")
      × (apply_first ends_in o' (p ++ codes "ss") ≡ p ++ codes "s")
step1a_order p h = (
  ss_first,
  s_first,
  ss_first-perm,
  s_first-perm,
  apply_first_here p (codes "ss") (codes "ss") _ h,
  rw (append-s p) (
      apply_first_here (p ++ codes "s") (codes "s") [] _
        (omega (arith, byte_length-append p (codes "s")))
      ∙ append-nil _),
)
