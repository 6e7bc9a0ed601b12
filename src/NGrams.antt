-- ===== src/NGrams.antt =====
-- internal/repository/chunkRepos.go: `extractNGrams`, `IndexNGrams`, `flushChunk` and `FlushAll`.
-- The database is a parameter: `set` writes a key and returns no database on an error, `marshal` is json.Marshal.
-- Locking and logging are left out.
pub mod Windows
pub mod Keys
pub mod Chunks
pub mod Growth
pub mod Conserved
pub mod Flushed
pub mod Lookup
mod Tests
use monocle.Prelude.{
  ℕ, zero, suc, ◌+◌, ◌-◌, ◌/◌, ◌%◌, ltb, leb, if◌then◌else◌, Bool, true, false, List, [], ◌∷◌, ◌++◌,
  Option, none, some, length, take, drop,
}
use monocle.Prelude.Assoc.{lookup, insert}
use monocle.Prelude.Text.{Text, codes, eqb}
use monocle.Prelude.Decimal.{digits}
use monocle.Prelude.Unicode.{Unicode, lower}

-- `_, ex := alIn[ng]`
unfoldable pub is_in : Text → List Text → Bool
is_in ng [] = false
is_in ng (g ∷ al_in) = if eqb g ng then true else is_in ng al_in

-- The loop over `i`; the second argument counts the rounds that are left.
unfoldable pub windows : ℕ → ℕ → ℕ → Text → List Text → List Text
windows n zero i runes al_in = []
windows n (suc k) i runes al_in =
    let ng = take n (drop i runes) in
    elim (is_in ng al_in) [
      | true ↦ windows n k (suc i) runes al_in
      | false ↦ ng ∷ windows n k (suc i) runes (ng ∷ al_in)
    ]

unfoldable pub extract_n_grams : Unicode → Text → ℕ → List Text
extract_n_grams u word n =
    let runes = lower u word in
    if ltb (length runes) n then [] else windows n (length runes - n + 1) 0 runes []

abbrev pub chunk_size : ℕ
chunk_size = 100

-- The fields of `IndexRepository` that these functions use.
pub record IndexRepository (Db : Type 0) : Type 0 where
  pub db : Db
  pub word_buffer : List (Text × List Text)
  pub counts : List (Text × ℕ)

-- `ir.wordBuffer[ng]` and `ir.counts[ng]`, with Go's zero values.
unfoldable pub buffer_of : Text → List (Text × List Text) → List Text
buffer_of ng m = elim (lookup ng m) [ none ↦ [] | some buf ↦ buf ]

unfoldable pub count_of : Text → List (Text × ℕ) → ℕ
count_of ng m = elim (lookup ng m) [ none ↦ 0 | some n ↦ n ]

unfoldable pub zeros : ℕ → Text
zeros zero = []
zeros (suc k) = b'0' ∷ zeros k

-- "ng:%s:%04d"
unfoldable pub chunk_key : Text → ℕ → Text
chunk_key ng chunk_id =
    let d = digits (suc chunk_id) chunk_id in
    codes "ng:" ++ (ng ++ (codes ":" ++ (zeros (4 - length d) ++ d)))

module _ (Db : Type 0) (set : Text → Text → Db → Option Db) (marshal : List Text → Text) where
  -- The repository, and whether an error is returned.
  unfoldable pub flush_chunk : Text → List Text → IndexRepository Db → IndexRepository Db × Bool
  flush_chunk ng buffer ir =
      let chunk_id = suc (count_of ng ir.counts) in
      let counts = insert ng chunk_id ir.counts in
      elim (set (chunk_key ng chunk_id) (marshal buffer) ir.db) [
        | none ↦ (record { db = ir.db; word_buffer = ir.word_buffer; counts = counts }, true)
        | some db ↦ (record { db = db; word_buffer = ir.word_buffer; counts = counts }, false)
      ]

  unfoldable pub set_buffer : Text → List Text → IndexRepository Db → IndexRepository Db
  set_buffer ng buf ir = record {
    db = ir.db;
    word_buffer = insert ng buf ir.word_buffer;
    counts = ir.counts;
  }

  -- What follows a flush: its error, or `buf[:0]`.
  unfoldable pub empty_buffer : Text → IndexRepository Db × Bool → IndexRepository Db × Bool
  empty_buffer ng (flushed, true) = (flushed, true)
  empty_buffer ng (flushed, false) = (set_buffer ng [] flushed, false)

  -- The body of the inner loop.
  unfoldable pub index_n_gram : Text → Text → IndexRepository Db → IndexRepository Db × Bool
  index_n_gram word ng ir =
      let buf = buffer_of ng ir.word_buffer ++ word ∷ [] in
      elim (leb chunk_size (length buf)) [
        | false ↦ (set_buffer ng buf ir, false)
        | true ↦ empty_buffer ng (flush_chunk ng buf ir)
      ]

  -- Goes on with the next round, unless an error is returned.
  unfoldable pub unless_error :
      IndexRepository Db × Bool
      → (IndexRepository Db → IndexRepository Db × Bool)
      → IndexRepository Db × Bool
  unless_error (ir, true) next = (ir, true)
  unless_error (ir, false) next = next ir

  unfoldable pub index_word : Text → List Text → IndexRepository Db → IndexRepository Db × Bool
  index_word word [] ir = (ir, false)
  index_word word (ng ∷ grams) ir = unless_error (index_n_gram word ng ir) (index_word word grams)

  unfoldable pub index_n_grams :
      Unicode → ℕ → List Text → IndexRepository Db → IndexRepository Db × Bool
  index_n_grams u n [] ir = (ir, false)
  index_n_grams u n (word ∷ words) ir =
      unless_error (index_word word (extract_n_grams u word n) ir) (index_n_grams u n words)

  -- The loop of `FlushAll` over the buffers, in the order in which the map is visited; errors are dropped.
  unfoldable pub flush_buffers : List (Text × List Text) → IndexRepository Db → IndexRepository Db
  flush_buffers [] ir = ir
  flush_buffers ((ng, buf) ∷ order) ir = elim buf [
    | [] ↦ flush_buffers order ir
    | w ∷ words ↦ flush_buffers order (flush_chunk ng (w ∷ words) ir).0
  ]

  unfoldable pub flush_all : List (Text × List Text) → IndexRepository Db → IndexRepository Db
  flush_all order ir =
      let flushed = flush_buffers order ir in
      record { db = flushed.db; word_buffer = []; counts = flushed.counts }
