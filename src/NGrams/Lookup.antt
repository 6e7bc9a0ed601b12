-- ===== src/NGrams/Lookup.antt =====
-- internal/repository/chunkRepos.go: `GetWordsByNGram`. The scan of the database and json.Unmarshal are parameters.
pub mod Found
use monocle.Prelude.{ℕ, ◌⊎◌, inl, inr, true, false, Option, none, some, List, [], ◌∷◌, ◌++◌}
use monocle.Prelude.Text.{Text, codes}
use monocle.Prelude.Unicode.{Unicode}
use monocle.Store.{Failure, bad_json}
use monocle.NGrams.{is_in, extract_n_grams}

-- `alreadyInc` and `result`
pub record Words : Type 0 where
  pub already_inc : List Text
  pub result : List Text

-- The loop over the words of a chunk.
unfoldable pub include : List Text → Words → Words
include [] found = found
include (w ∷ words) found = elim (is_in w found.already_inc) [
  | true ↦ include words found
  | false ↦
      include words
        (record { already_inc = w ∷ found.already_inc; result = found.result ++ (w ∷ []) })
]

-- "ng:" + ngram + ":"
unfoldable pub n_gram_prefix : Text → Text
n_gram_prefix ng = codes "ng:" ++ (ng ++ codes ":")

module _ (Db : Type 0) (scan : Text → Db → List (Text × Text))
    (unmarshal : Text → Option (List Text)) where
  -- The loop over the chunks of an n-gram.
  unfoldable pub read_chunks : List (Text × Text) → Words → Failure ⊎ Words
  read_chunks [] found = inr found
  read_chunks ((key, value) ∷ chunks) found = elim (unmarshal value) [
    | none ↦ inl bad_json
    | some words ↦ read_chunks chunks (include words found)
  ]

  unfoldable pub read_n_grams : Db → List Text → Words → Failure ⊎ Words
  read_n_grams db [] found = inr found
  read_n_grams db (ng ∷ grams) found = elim (read_chunks (scan (n_gram_prefix ng) db) found) [
    | inl e ↦ inl e
    | inr more ↦ read_n_grams db grams more
  ]

  unfoldable pub get_words_by_n_gram : Unicode → Text → ℕ → Db → Failure ⊎ List Text
  get_words_by_n_gram u word n db =
      elim (read_n_grams db (extract_n_grams u word n) (record { already_inc = []; result = [] })) [
        | inl e ↦ inl e
        | inr found ↦ inr found.result
      ]
