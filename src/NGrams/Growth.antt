-- ===== src/NGrams/Growth.antt =====
-- What one round of IndexNGrams does to the words that are kept: in the chunks of the database, and in the buffers.
use monocle.Prelude.{
  ℕ, suc, ◌+◌, ◌*◌, ◌<◌, ◌≡◌, refl, ap, leb, leb→le, Bool, true, false, List, [], ◌∷◌, ◌++◌, Option,
  some, length, sym, ◌∙◌, append-nil, append_assoc, ◌≢◌, length-append, arith, Bool-cases, inl, inr,
  if◌then◌else◌,
}
use monocle.Prelude.Assoc.{insert, lookup-insert}
use mathlib.Core.Path.{subst, ap₂}
use monocle.Store.{Store, IsStore}
use monocle.NGrams.Chunks.{chunks_to, chunks_to-same, chunks_to-other}
use monocle.Prelude.Text.{Text, eqb, eqb_iff, eqb_refl}
use monocle.Prelude.Unicode.{Unicode}
use monocle.NGrams.{
  extract_n_grams, chunk_size, IndexRepository, buffer_of, count_of, chunk_key, flush_chunk,
  set_buffer, empty_buffer, index_n_gram,
}

-- The words that are given for the n-gram: `word` once for each place where it stands in a list.
abbrev pub given : Text → Text → List Text → List Text
given ng word [] = []
given ng word (g ∷ grams) = if eqb g ng then word ∷ given ng word grams else given ng word grams

-- Those of some words in their order, each for its n-grams.
abbrev pub fed : Unicode → ℕ → Text → List Text → List Text
fed u n ng [] = []
fed u n ng (word ∷ words) = given ng word (extract_n_grams u word n) ++ fed u n ng words

buffer_of-insert :
    (k ng : Text) (buf : List Text) (m : List (Text × List Text))
    → buffer_of ng (insert k buf m) ≡ (if eqb k ng then buf else buffer_of ng m)
unfolding buffer_of
buffer_of-insert k ng buf m = ground (arith, lookup-insert k ng buf m)

pub count_of-insert :
    (k ng : Text) (n : ℕ) (m : List (Text × ℕ))
    → count_of ng (insert k n m) ≡ (if eqb k ng then n else count_of ng m)
unfolding count_of
count_of-insert k ng n m = ground (arith, lookup-insert k ng n m)

module _ (Db : Type 0) (store : Store Db) (marshal : List Text → Text)
    (unmarshal : Text → Option (List Text)) where
  -- The words that are kept for an n-gram: those of its chunks in the database, and those of its buffer.
  abbrev pub held : Text → IndexRepository Db → List Text
  held ng ir =
      chunks_to Db store unmarshal ng (count_of ng ir.counts) ir.db ++ buffer_of ng ir.word_buffer

  -- As many as there are where each chunk has a hundred.
  abbrev pub amount : Text → IndexRepository Db → ℕ
  amount ng ir = chunk_size * count_of ng ir.counts + length (buffer_of ng ir.word_buffer)

  -- No buffer holds a whole chunk.
  abbrev pub IsSmall : IndexRepository Db → Type 0
  IsSmall ir = (ng : Text) → length (buffer_of ng ir.word_buffer) < chunk_size

  -- Between two repositories, the words `more` are added for the n-gram, after the others.
  abbrev pub Grows : Text → List Text → IndexRepository Db → IndexRepository Db → Type 0
  Grows ng more ir after =
      (held ng after ≡ held ng ir ++ more) × (amount ng after ≡ amount ng ir + length more)

  -- A run without an error, which adds the words `more ng` for each n-gram.
  abbrev pub Adds : (Text → List Text) → IndexRepository Db → IndexRepository Db × Bool → Type 0
  Adds more ir result =
      (after : IndexRepository Db) × (result ≡ (after, false))
      × IsSmall after
      × ((ng : Text) → Grows ng (more ng) ir after)

  pub buffered :
      (word g : Text) (ir : IndexRepository Db)
      → leb chunk_size (length (buffer_of g ir.word_buffer ++ word ∷ [])) ≡ false
      → index_n_gram Db store.set marshal word g ir ≡ (
        record {
          db = ir.db;
          word_buffer = insert g (buffer_of g ir.word_buffer ++ word ∷ []) ir.word_buffer;
          counts = ir.counts;
        },
        false,
      )
  unfolding index_n_gram set_buffer
  buffered word g ir h = ground arith

  pub flushed :
      (word g : Text) (ir : IndexRepository Db) (db : Db)
      → leb chunk_size (length (buffer_of g ir.word_buffer ++ word ∷ [])) ≡ true
      → store.set
          (chunk_key g (suc (count_of g ir.counts)))
          (marshal (buffer_of g ir.word_buffer ++ word ∷ []))
          ir.db
        ≡ some db
      → index_n_gram Db store.set marshal word g ir ≡ (
        record {
          db = db;
          word_buffer = insert g [] ir.word_buffer;
          counts = insert g (suc (count_of g ir.counts)) ir.counts;
        },
        false,
      )
  unfolding index_n_gram set_buffer flush_chunk empty_buffer
  flushed word g ir db h s = ground arith

  pub Grows-none :
      (ng : Text) (ir after : IndexRepository Db)
      → held ng after ≡ held ng ir
      → amount ng after ≡ amount ng ir
      → Grows ng [] ir after
  Grows-none ng ir after e n = (e ∙ sym (append-nil (held ng ir)), omega (arith, n))

  module _ (word g : Text) (ir : IndexRepository Db) where
    abbrev pub longer : List Text
    longer = buffer_of g ir.word_buffer ++ word ∷ []

    longer-length : length longer ≡ suc (length (buffer_of g ir.word_buffer))
    longer-length = omega (arith, length-append (buffer_of g ir.word_buffer) (word ∷ []))

    abbrev pub kept_buffer : IndexRepository Db
    kept_buffer = record {
      db = ir.db;
      word_buffer = insert g longer ir.word_buffer;
      counts = ir.counts;
    }

    abbrev pub new_chunk : Db → IndexRepository Db
    new_chunk db = record {
      db = db;
      word_buffer = insert g [] ir.word_buffer;
      counts = insert g (suc (count_of g ir.counts)) ir.counts;
    }

    kept_buffer_here : Grows g (word ∷ []) ir kept_buffer
    kept_buffer_here =
        let same : buffer_of g kept_buffer.word_buffer ≡ longer =
          buffer_of-insert g g longer ir.word_buffer ∙ rw (eqb_refl g) refl in
        (
          ap (λ b. chunks_to Db store unmarshal g (count_of g ir.counts) ir.db ++ b) same
              ∙ sym (append_assoc _ (buffer_of g ir.word_buffer) (word ∷ [])),
          omega (arith, ap length same, longer-length),
        )

    pub kept_buffer-Grows : (ng : Text) → Grows ng (given ng word (g ∷ [])) ir kept_buffer
    kept_buffer-Grows ng = elim (Bool-cases (eqb g ng)) [
      | inr other ↦
          let same : buffer_of ng kept_buffer.word_buffer ≡ buffer_of ng ir.word_buffer =
            buffer_of-insert g ng longer ir.word_buffer ∙ rw other refl in
          rw other (
            Grows-none ng ir kept_buffer
              (ap (λ b. chunks_to Db store unmarshal ng (count_of ng ir.counts) ir.db ++ b) same)
              (omega (arith, ap length same)))
      | inl same ↦
          rw same (
            subst (λ x. Grows x (word ∷ []) ir kept_buffer) ((eqb_iff g ng).0 same)
              kept_buffer_here)
    ]

    module _ (lawful : IsStore Db store)
        (reads_back : (words : List Text) → unmarshal (marshal words) ≡ some words) (db : Db)
        (full : leb chunk_size (length longer) ≡ true) (small : IsSmall ir)
        (written : store.set (chunk_key g (suc (count_of g ir.counts))) (marshal longer) ir.db
          ≡ some db) where
      new_chunk_here : Grows g (word ∷ []) ir (new_chunk db)
      new_chunk_here =
          let count : count_of g (new_chunk db).counts ≡ suc (count_of g ir.counts) =
            count_of-insert g g (suc (count_of g ir.counts)) ir.counts ∙ rw (eqb_refl g) refl in
          let empty : buffer_of g (new_chunk db).word_buffer ≡ [] =
            buffer_of-insert g g [] ir.word_buffer ∙ rw (eqb_refl g) refl in
          (
            ap₂ (λ k b. chunks_to Db store unmarshal g k db ++ b) count empty
                ∙ append-nil _
                ∙ chunks_to-same Db store unmarshal lawful marshal reads_back g
                    (count_of g ir.counts) longer ir.db db written
                ∙ sym (append_assoc _ (buffer_of g ir.word_buffer) (word ∷ [])),
            omega (
              arith,
              count,
              ap length empty,
              longer-length,
              leb→le chunk_size (length longer) full,
              small g,
            ),
          )

      pub new_chunk-Grows : (ng : Text) → Grows ng (given ng word (g ∷ [])) ir (new_chunk db)
      new_chunk-Grows ng = elim (Bool-cases (eqb g ng)) [
        | inl same ↦ rw same (
            subst (λ x. Grows x (word ∷ []) ir (new_chunk db)) ((eqb_iff g ng).0 same)
              new_chunk_here)
        | inr other ↦
            let count : count_of ng (new_chunk db).counts ≡ count_of ng ir.counts =
              count_of-insert g ng (suc (count_of g ir.counts)) ir.counts ∙ rw other refl in
            let buffer : buffer_of ng (new_chunk db).word_buffer ≡ buffer_of ng ir.word_buffer =
              buffer_of-insert g ng [] ir.word_buffer ∙ rw other refl in
            let differ : g ≢ ng = λ e. ground (arith, other, (eqb_iff g ng).1 e) in
            rw other (
              Grows-none ng ir (new_chunk db)
                (ap₂ (λ k b. chunks_to Db store unmarshal ng k db ++ b) count buffer
                  ∙ ap (λ c. c ++ buffer_of ng ir.word_buffer)
                      (chunks_to-other Db store unmarshal lawful marshal reads_back g
                        (count_of g ir.counts) longer ir.db db written ng (count_of ng ir.counts)
                        differ))
                (omega (arith, count, ap length buffer)))
      ]

    pub put_buffer-IsSmall :
        (buf : List Text) (after : IndexRepository Db)
        → after.word_buffer ≡ insert g buf ir.word_buffer
        → length buf < chunk_size
        → IsSmall ir
        → IsSmall after
    put_buffer-IsSmall buf after e less small ng = elim (Bool-cases (eqb g ng)) [
      | inl same ↦ rw (e, buffer_of-insert g ng buf ir.word_buffer, same) less
      | inr other ↦ rw (e, buffer_of-insert g ng buf ir.word_buffer, other) (small ng)
    ]
