-- ===== src/Postings.antt =====
-- internal/repository/indexRepos.go: `IndexDocumentWords` and `GetDocumentsByWord`.
-- Words are byte strings, ids 32 bytes. Package encoding/json is a parameter; locking is left out.
pub mod Keys
pub mod Stored
pub mod RoundTrip
pub mod Underscore
mod Tests
use monocle.Prelude.{
  ℕ, zero, suc, ◌-◌, ◌*◌, ◌⊎◌, inl, inr, ltb, Bool, true, false, Option, none, some, List, [], ◌∷◌,
  ◌++◌, length, take, drop, if◌then◌else◌,
}
use monocle.Prelude.Text.{Text, codes}
use monocle.Prelude.Hex.{hex, decode_hex}
use monocle.Store.{Store, Failure, write_failed, bad_json, bad_hex}
use monocle.Store.Gather.{gather}
use monocle.Proximity.{Position}
use monocle.Indexer.{positions_of}

-- `WordCountAndPositions`
pub record Posting : Type 0 where
  pub count : ℕ
  pub positions : List Position

-- json.Marshal and json.Unmarshal.
pub record Json : Type 0 where
  pub marshal : Posting → Option Text
  pub unmarshal : Text → Option Posting

-- "ri:%s_"
unfoldable pub word_prefix : Text → Text
word_prefix word = codes "ri:" ++ (word ++ (b'_' ∷ []))

-- "ri:%s_%x"
unfoldable pub word_key : Text → Text → Text
word_key word id = codes "ri:" ++ (word ++ (b'_' ∷ hex id))

abbrev pub most_positions : ℕ
most_positions = 500

abbrev pub iter_size : ℕ
iter_size = 500

unfoldable pub cut_positions : List Position → List Position
cut_positions positions =
    if ltb most_positions (length positions) then take most_positions positions else positions

-- A value of more than a megabyte is not stored.
unfoldable pub is_too_long : Text → Bool
is_too_long value = ltb (1024 * 1024) (length value)

unfoldable pub zeros : ℕ → Text
zeros zero = []
zeros (suc n) = 0 ∷ zeros n

-- `copy` into an array of 32 bytes.
unfoldable pub to_id : Text → Text
to_id decoded = take 32 decoded ++ zeros (32 - length decoded)

module _ (Db : Type 0) (store : Store Db) (json : Json) (doc_id : Text)
    (pos : List (Text × List Position)) where
  abbrev pub posting_of : Text → ℕ → Posting
  posting_of word freq = record { count = freq; positions = cut_positions (positions_of word pos) }

  -- The loop of one transaction.
  unfoldable pub write_chunk : List (Text × ℕ) → Db → Failure ⊎ Db
  write_chunk [] txn = inr txn
  write_chunk ((word, freq) ∷ chunk) txn = elim (json.marshal (posting_of word freq)) [
    | none ↦ inl bad_json
    | some value ↦ elim (is_too_long value) [
      | true ↦ write_chunk chunk txn
      | false ↦ elim (store.set (word_key word doc_id) value txn) [
        | none ↦ inl write_failed
        | some after ↦ write_chunk chunk after
      ]
    ]
  ]

  -- The loop over the chunks; a transaction that fails changes nothing.
  unfoldable pub write_chunks : ℕ → List (Text × ℕ) → Db → Db × Option Failure
  write_chunks zero entries db = (db, none)
  write_chunks (suc fuel) [] db = (db, none)
  write_chunks (suc fuel) (entry ∷ entries) db =
      elim (write_chunk (take iter_size (entry ∷ entries)) db) [
        | inl e ↦ (db, some e)
        | inr after ↦ write_chunks fuel (drop iter_size (entry ∷ entries)) after
      ]

  -- The entries are those of the map, in the order in which it is visited; every chunk has one of them at least.
  unfoldable pub index_document_words : List (Text × ℕ) → Db → Db × Option Failure
  index_document_words entries db = write_chunks (length entries) entries db

module _ (Db : Type 0) (store : Store Db) (json : Json) where
  -- One entry of the scan for a word.
  unfoldable pub decode_posting : Text → Text → Text → Failure ⊎ (Text × Posting)
  decode_posting word key value = elim (decode_hex (drop (length (word_prefix word)) key)) [
    | none ↦ inl bad_hex
    | some decoded ↦ elim (json.unmarshal value) [
      | none ↦ inl bad_json
      | some posting ↦ inr (to_id decoded, posting)
    ]
  ]

  -- The map from ids, with the error returned.
  unfoldable pub get_documents_by_word : Text → Db → List (Text × Posting) × Option Failure
  get_documents_by_word word db = gather (decode_posting word) (store.scan (word_prefix word) db) []
