-- ===== src/NGrams/Flushed.antt =====
-- FlushAll numbers one chunk for each buffer that is not empty, whether its write succeeds or fails.
use monocle.Prelude.{
  ℕ, suc, ◌+◌, ◌≡◌, refl, sym, ◌∙◌, ap, true, false, List, [], ◌∷◌, map, Option, arith, Bool-cases,
  Option-cases, inl, inr, if◌then◌else◌,
}
use monocle.Prelude.Assoc.{lookup, insert}
use monocle.Prelude.Text.{Text, eqb, eqb_iff}
use monocle.NGrams.{
  is_in, IndexRepository, buffer_of, count_of, chunk_key, flush_chunk, flush_buffers, flush_all,
}
use monocle.NGrams.Windows.{IsDistinct}
use monocle.NGrams.Growth.{count_of-insert}

-- 1 for a buffer that is not empty.
abbrev pub chunks_of : List Text → ℕ
chunks_of [] = 0
chunks_of (w ∷ words) = 1

buffer_of-absent :
    (ng : Text) (order : List (Text × List Text))
    → is_in ng (map (λ e. e.0) order) ≡ false
    → buffer_of ng order ≡ []
unfolding buffer_of is_in lookup
buffer_of-absent ng [] h = refl
buffer_of-absent ng ((g, buf) ∷ order) h = ground (arith, h, buffer_of-absent ng order)

buffer_of-cons :
    (ng g : Text) (buf : List Text) (order : List (Text × List Text))
    → buffer_of ng ((g, buf) ∷ order) ≡ (if eqb g ng then buf else buffer_of ng order)
unfolding buffer_of lookup
buffer_of-cons ng g buf order = ground arith

module _ (g ng : Text) (order : List (Text × List Text))
    (fresh : is_in g (map (λ e. e.0) order) ≡ false) where
  none_later : eqb g ng ≡ true → buffer_of ng order ≡ []
  none_later same =
      ap (λ x. buffer_of x order) (sym ((eqb_iff g ng).0 same)) ∙ buffer_of-absent g order fresh

  skip_empty : buffer_of ng ((g, []) ∷ order) ≡ buffer_of ng order
  skip_empty = buffer_of-cons ng g [] order ∙ elim (Bool-cases (eqb g ng)) [
    | inl same ↦ rw same (sym (none_later same))
    | inr other ↦ rw other
  ]

module _ (Db : Type 0) (set : Text → Text → Db → Option Db) (marshal : List Text → Text) where
  counts-flush_chunk :
      (g : Text) (buf : List Text) (ir : IndexRepository Db)
      → (flush_chunk Db set marshal g buf ir).0.counts
        ≡ insert g (suc (count_of g ir.counts)) ir.counts
  unfolding flush_chunk
  counts-flush_chunk g buf ir =
      elim (Option-cases (set (chunk_key g (suc (count_of g ir.counts))) (marshal buf) ir.db)) [
        | inl failed ↦ ground arith
        | inr (db, written) ↦ ground arith
      ]

  Numbers : List (Text × List Text) → IndexRepository Db → IndexRepository Db → Type 0
  Numbers order ir after =
      (ng : Text)
      → count_of ng after.counts ≡ count_of ng ir.counts + chunks_of (buffer_of ng order)

  flush_buffers_lem :
      (order : List (Text × List Text)) (ir : IndexRepository Db)
      → IsDistinct (map (λ e. e.0) order)
      → Numbers order ir (flush_buffers Db set marshal order ir)
  unfolding flush_buffers Numbers
  flush_buffers_lem [] ir h = λ ng. unfold buffer_of lookup in omega arith
  flush_buffers_lem ((g, []) ∷ order) ir (fresh, h) = λ ng.
      flush_buffers_lem order ir h ng
      ∙ ap (λ b. count_of ng ir.counts + chunks_of b) (sym (skip_empty g ng order fresh))
  flush_buffers_lem ((g, w ∷ words) ∷ order) ir (fresh, h) = λ ng.
      flush_buffers_lem order _ h ng
      ∙ rw
          (
            counts-flush_chunk g (w ∷ words) ir,
            count_of-insert g ng (suc (count_of g ir.counts)) ir.counts,
            buffer_of-cons ng g (w ∷ words) order,
          )
          (elim (Bool-cases (eqb g ng)) [
            | inl same ↦
                rw (same, none_later g ng order fresh same)
                  (omega (arith, ap (λ x. count_of x ir.counts) ((eqb_iff g ng).0 same)))
            | inr other ↦ rw other
          ])

  -- Where the map is visited with no key twice, FlushAll leaves no buffer, and numbers one chunk more for each n-gram
  -- whose buffer is not empty, whether its write succeeds or fails.
  pub flush_all-Numbers :
      (order : List (Text × List Text)) (ir : IndexRepository Db)
      → IsDistinct (map (λ e. e.0) order)
      → ((flush_all Db set marshal order ir).word_buffer ≡ [])
        × ((ng : Text)
            → count_of ng (flush_all Db set marshal order ir).counts
              ≡ count_of ng ir.counts + chunks_of (buffer_of ng order))
  unfolding flush_all Numbers
  flush_all-Numbers order ir h = (refl, flush_buffers_lem order ir h)
