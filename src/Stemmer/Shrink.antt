-- ===== src/Stemmer/Shrink.antt =====
-- What holds of a stem for every order in which the rules are visited.
use mathlib.Core.List.{Mem, Perm, mem-cons, not-mem-nil, mem-cons_self, mem-cons_of_mem}
use mathlib.Core.List.Perm
use mathlib.Core.Logic.Or
use native.Mathlib.Bridge.{le_prop}
use monocle.Prelude.{
  ℕ, ◌≤◌, ◌<◌, ◌≡◌, ap, ◌↔◌, inl, inr, Bool, true, false, List, [], ◌∷◌, ◌++◌, All, arith,
  Bool-cases,
}
use monocle.Prelude.Text.{Text}
use monocle.Prelude.Suffix.{
  trim_suffix, trim_suffix_lem, bytes, utf8, byte_length, byte_length-append,
}
use monocle.Prelude.Unicode.{Unicode}
use monocle.Stemmer.{
  Rule, Visit, IsVisit, step1a_rules, step1b_rules, step2_rules, step3_rules, step4_rules,
  is_stop_word, ends_in, measured, apply_first, steps, stem,
}

-- A word with a proper suffix keeps a part before it.
abbrev Takes : (Text → Text → Bool) → Type 0
Takes takes = (w s : Text) → takes w s ≡ true → ends_in w s ≡ true

measured-Takes : (least : ℕ) → Takes (measured least)
unfolding measured
measured-Takes least w s h = ground arith

ends_in_parts :
    (w s : Text) → ends_in w s ≡ true → (byte_length s < byte_length w) × (w ≡ trim_suffix w s ++ s)
unfolding ends_in
ends_in_parts w s h = (ground arith, trim_suffix_lem w s (ground arith))

-- A rule's replacement is not longer than its suffix.
abbrev IsShrinking : Rule → Type 0
IsShrinking (s, r) = byte_length r ≤ byte_length s

applied_pos : (w s r : Text) → ends_in w s ≡ true → 0 < byte_length (trim_suffix w s ++ r)
applied_pos w s r h =
    let (longer, parts) = ends_in_parts w s h in
    omega (
      arith,
      byte_length-append (trim_suffix w s) r,
      byte_length-append (trim_suffix w s) s,
      ap byte_length parts,
    )

applied_le :
    (w s r : Text)
    → ends_in w s ≡ true
    → byte_length r ≤ byte_length s
    → byte_length (trim_suffix w s ++ r) ≤ byte_length w
applied_le w s r h le =
    let (longer, parts) = ends_in_parts w s h in
    omega (
      arith,
      byte_length-append (trim_suffix w s) r,
      byte_length-append (trim_suffix w s) s,
      ap byte_length parts,
    )

module _ (takes : Text → Text → Bool) (proper : Takes takes) where
  apply_first_pos :
      (rules : List Rule) (w : Text)
      → 0 < byte_length w
      → 0 < byte_length (apply_first takes rules w)
  unfolding apply_first
  apply_first_pos [] w h = h
  apply_first_pos ((s, r) ∷ rules) w h = elim (Bool-cases (takes w s)) [
    | inl t ↦ rw t (applied_pos w s r (proper w s t))
    | inr t ↦ rw t (apply_first_pos rules w h)
  ]

  apply_first_le :
      (rules : List Rule) (w : Text)
      → ((x : Rule) → Mem x rules → IsShrinking x)
      → byte_length (apply_first takes rules w) ≤ byte_length w
  unfolding apply_first
  apply_first_le [] w h = omega arith
  apply_first_le ((s, r) ∷ rules) w h = elim (Bool-cases (takes w s)) [
    | inl t ↦ rw t (applied_le w s r (proper w s t) (h (s, r) mem-cons_self))
    | inr t ↦ rw t (apply_first_le rules w (λ x m. h x (mem-cons_of_mem (s, r) m)))
  ]

IsShrinking-of_mem :
    (table : List Rule) → All IsShrinking table → (x : Rule) → Mem x table → IsShrinking x
IsShrinking-of_mem [] all x m = absurd (not-mem-nil m)
IsShrinking-of_mem (y ∷ table) all x m =
    Or.elim le_prop (mem-cons.0 m) (λ e. rw e all.0) (IsShrinking-of_mem table all.1 x)

-- A step never makes a word longer, whatever the order of its table.
step_le :
    (takes : Text → Text → Bool) (table rules : List Rule) (w : Text)
    → Takes takes
    → All IsShrinking table
    → Perm rules table
    → byte_length (apply_first takes rules w) ≤ byte_length w
step_le takes table rules w proper all p =
    apply_first_le takes proper rules w
      (λ x m. IsShrinking-of_mem table all x ((Perm.mem_iff p).0 m))

ends_in-Takes : Takes ends_in
ends_in-Takes w s h = h

step1a_shrink : All IsShrinking step1a_rules
unfolding bytes utf8
step1a_shrink = omega arith

step1b_shrink : All IsShrinking step1b_rules
unfolding bytes utf8
step1b_shrink = omega arith

step2_shrink : All IsShrinking step2_rules
unfolding bytes utf8
step2_shrink = omega arith

step3_shrink : All IsShrinking step3_rules
unfolding bytes utf8
step3_shrink = omega arith

step4_shrink : All IsShrinking step4_rules
unfolding bytes utf8
step4_shrink = omega arith

steps_le : (v : Visit) → IsVisit v → (w : Text) → byte_length (steps v w) ≤ byte_length w
unfolding steps
steps_le v i w =
    let w1 = apply_first ends_in v.step1a w in
    let w2 = apply_first (measured 0) v.step1b w1 in
    let w3 = apply_first (measured 0) v.step2 w2 in
    let w4 = apply_first (measured 0) v.step3 w3 in
    omega (
      arith,
      step_le ends_in step1a_rules v.step1a w ends_in-Takes step1a_shrink i.step1a,
      step_le (measured 0) step1b_rules v.step1b w1 (measured-Takes 0) step1b_shrink i.step1b,
      step_le (measured 0) step2_rules v.step2 w2 (measured-Takes 0) step2_shrink i.step2,
      step_le (measured 0) step3_rules v.step3 w3 (measured-Takes 0) step3_shrink i.step3,
      step_le (measured 1) step4_rules v.step4 w4 (measured-Takes 1) step4_shrink i.step4,
    )

steps_pos : (v : Visit) (w : Text) → 0 < byte_length w → 0 < byte_length (steps v w)
unfolding steps
steps_pos v w h = apply_first_pos (measured 1) (measured-Takes 1) v.step4 _ (
    apply_first_pos (measured 0) (measured-Takes 0) v.step3 _ (
      apply_first_pos (measured 0) (measured-Takes 0) v.step2 _ (
        apply_first_pos (measured 0) (measured-Takes 0) v.step1b _
          (apply_first_pos ends_in ends_in-Takes v.step1a w h))))

stem_nil : (u : Unicode) (v : Visit) (w : Text) → is_stop_word u w ≡ true → stem u v w ≡ []
unfolding stem
stem_nil u v w h = rw h

stem_pos :
    (u : Unicode) (v : Visit) (w : Text)
    → is_stop_word u w ≡ false
    → 0 < byte_length w
    → 0 < byte_length (stem u v w)
unfolding stem
stem_pos u v w h pos = rw h (ground (arith, steps_pos v w pos))

-- The stem of a word that is not empty is empty exactly if it is a stop word, for every order in
-- which the rules are visited.
pub stem-eq-nil_iff :
    (u : Unicode) (v : Visit) (w : Text)
    → 0 < byte_length w
    → (stem u v w ≡ []) ↔ (is_stop_word u w ≡ true)
unfolding bytes
stem-eq-nil_iff u v w pos = (
  λ e. elim (Bool-cases (is_stop_word u w)) [
    | inl stop ↦ stop
    | inr other ↦ absurd (omega (arith, stem_pos u v w other pos, ap byte_length e))
  ],
  stem_nil u v w,
)

-- A stem is never longer than its word, for every order in which Go visits the rules.
pub stem-le :
    (u : Unicode) (v : Visit) (w : Text) → IsVisit v → byte_length (stem u v w) ≤ byte_length w
unfolding stem bytes
stem-le u v w i = ground (arith, steps_le v i w)
