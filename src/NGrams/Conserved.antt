-- ===== src/NGrams/Conserved.antt =====
-- What IndexNGrams keeps of the words that it is given: in the chunks of the database, and in the buffers.
use monocle.Prelude.{
  ℕ, suc, ◌≡◌, refl, ap, leb, Bool, false, List, [], ◌∷◌, ◌++◌, Option, some, length, sym, ◌∙◌,
  append_assoc, length-append, arith, Bool-cases, inl, inr,
}
use monocle.Store.{Store, IsStore, IsReliable}
use monocle.Prelude.Text.{Text}
use monocle.Prelude.Unicode.{Unicode}
use monocle.NGrams.{
  extract_n_grams, chunk_size, IndexRepository, count_of, chunk_key, index_n_gram, unless_error,
  index_word, index_n_grams,
}
use monocle.NGrams.Growth.{
  given, fed, held, IsSmall, Grows, Adds, buffered, flushed, Grows-none, longer, kept_buffer,
  kept_buffer-Grows, new_chunk, new_chunk-Grows, put_buffer-IsSmall,
}

module _ (Db : Type 0) (store : Store Db) (marshal : List Text → Text)
    (unmarshal : Text → Option (List Text)) where
  -- Two stages without an error.
  Adds-unless_error :
      (m1 m2 m : Text → List Text) (ir : IndexRepository Db) (result : IndexRepository Db × Bool)
      (next : IndexRepository Db → IndexRepository Db × Bool)
      → Adds Db store marshal unmarshal m1 ir result
      → ((after : IndexRepository Db)
          → IsSmall Db store marshal unmarshal after
          → Adds Db store marshal unmarshal m2 after (next after))
      → ((ng : Text) → m ng ≡ m1 ng ++ m2 ng)
      → Adds Db store marshal unmarshal m ir (unless_error Db store.set marshal result next)
  unfolding unless_error
  Adds-unless_error m1 m2 m ir result next (mid, run, small, grows) h total =
      let (after, run', small', grows') = h mid small in
      (
        after,
        rw run run',
        small',
        λ ng. (
          (grows' ng).0
              ∙ ap (λ xs. xs ++ m2 ng) (grows ng).0
              ∙ append_assoc (held Db store marshal unmarshal ng ir) (m1 ng) (m2 ng)
              ∙ ap (λ xs. held Db store marshal unmarshal ng ir ++ xs) (sym (total ng)),
          omega (
            arith,
            (grows ng).1,
            (grows' ng).1,
            ap length (total ng),
            length-append (m1 ng) (m2 ng),
          ),
        ),
      )

  module _ (lawful : IsStore Db store) (reliable : IsReliable Db store)
      (reads_back : (words : List Text) → unmarshal (marshal words) ≡ some words) where
    index_n_gram_lem :
        (word g : Text) (ir : IndexRepository Db)
        → IsSmall Db store marshal unmarshal ir
        → Adds Db store marshal unmarshal
            (λ ng. given ng word (g ∷ []))
            ir
            (index_n_gram Db store.set marshal word g ir)
    index_n_gram_lem word g ir small =
        elim (Bool-cases (leb chunk_size (length (longer Db store marshal unmarshal word g ir)))) [
          | inr room ↦ (
            kept_buffer Db store marshal unmarshal word g ir,
            buffered Db store marshal unmarshal word g ir room,
            put_buffer-IsSmall Db store marshal unmarshal word g ir
                (longer Db store marshal unmarshal word g ir)
                (kept_buffer Db store marshal unmarshal word g ir) refl (ground (arith, room))
                small,
            kept_buffer-Grows Db store marshal unmarshal word g ir,
          )
          | inl full ↦
              let (db, written) =
                reliable (chunk_key g (suc (count_of g ir.counts)))
                  (marshal (longer Db store marshal unmarshal word g ir)) ir.db in
              (
                new_chunk Db store marshal unmarshal word g ir db,
                flushed Db store marshal unmarshal word g ir db full written,
                put_buffer-IsSmall Db store marshal unmarshal word g ir []
                    (new_chunk Db store marshal unmarshal word g ir db) refl (omega arith) small,
                new_chunk-Grows Db store marshal unmarshal word g ir lawful reads_back db full small
                    written,
              )
        ]

    given-cons :
        (ng word g : Text) (grams : List Text)
        → given ng word (g ∷ grams) ≡ given ng word (g ∷ []) ++ given ng word grams
    given-cons ng word g grams = ground arith

    index_word_lem :
        (word : Text) (grams : List Text) (ir : IndexRepository Db)
        → IsSmall Db store marshal unmarshal ir
        → Adds Db store marshal unmarshal
            (λ ng. given ng word grams)
            ir
            (index_word Db store.set marshal word grams ir)
    unfolding index_word
    index_word_lem word [] ir small =
        (ir, refl, small, λ ng. Grows-none Db store marshal unmarshal ng ir ir refl refl)
    index_word_lem word (g ∷ grams) ir small =
        Adds-unless_error (λ ng. given ng word (g ∷ [])) (λ ng. given ng word grams)
          (λ ng. given ng word (g ∷ grams)) ir (index_n_gram Db store.set marshal word g ir)
          (index_word Db store.set marshal word grams) (index_n_gram_lem word g ir small)
          (λ after small'. index_word_lem word grams after small')
          (λ ng. given-cons ng word g grams)

    -- Where every write succeeds, the JSON of a list of words is read back as that list and no buffer holds a whole
    -- chunk, IndexNGrams returns no error and again leaves no buffer with a whole chunk. For each n-gram, the words that
    -- the database holds in its numbered chunks, followed by those of its buffer, are then the ones that were there
    -- before, followed by the given words that have the n-gram, in their order; and a hundred for each chunk number
    -- that is counted and the length of the buffer add up to as many more.
    pub index_n_grams-IsSmall :
        (u : Unicode) (n : ℕ) (words : List Text) (ir : IndexRepository Db)
        → IsSmall Db store marshal unmarshal ir
        → (after : IndexRepository Db) × (index_n_grams Db store.set marshal u n words ir
            ≡ (after, false))
          × IsSmall Db store marshal unmarshal after
          × ((ng : Text) → Grows Db store marshal unmarshal ng (fed u n ng words) ir after)
    unfolding index_n_grams
    index_n_grams-IsSmall u n [] ir small =
        (ir, refl, small, λ ng. Grows-none Db store marshal unmarshal ng ir ir refl refl)
    index_n_grams-IsSmall u n (word ∷ words) ir small =
        Adds-unless_error (λ ng. given ng word (extract_n_grams u word n)) (λ ng. fed u n ng words)
          (λ ng. fed u n ng (word ∷ words)) ir
          (index_word Db store.set marshal word (extract_n_grams u word n) ir)
          (index_n_grams Db store.set marshal u n words)
          (index_word_lem word (extract_n_grams u word n) ir small)
          (λ after small'. index_n_grams-IsSmall u n words after small') (λ ng. refl)
