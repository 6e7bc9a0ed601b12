-- ===== src/Documents.antt =====
-- internal/repository/documentRepos.go and urlsRepos.go, and `GetAVGLen` of internal/app/indexer/indexer.go.
-- Package encoding/json is a parameter. The repository's lock is modelled where a method takes it twice.
pub mod RoundTrip
pub mod Listing
pub mod Content
mod Tests
use monocle.Prelude.{
  ℕ, ◌+◌, ◌≡◌, ◌⊎◌, inl, inr, ltb, ◌==◌, Bool, true, false, Option, none, some, List, [], ◌∷◌, ◌++◌,
  length, drop, if◌then◌else◌,
}
use monocle.Prelude.Text.{Text, codes}
use monocle.Store.{Store, Failure, not_found, write_failed, bad_json, bad_id}
use monocle.Indexer.{Document}

-- "doc:%s" of an id, which is 32 bytes.
unfoldable pub document_key : Text → Text
document_key id = codes "doc:" ++ id

-- `DocumentKeyPrefix`, the format itself.
unfoldable pub document_key_prefix : Text
document_key_prefix = codes "doc:%s"

-- "hashKey:%s"
unfoldable pub urls_key : Text → Text
urls_key hash = codes "hashKey:" ++ hash

pub record Payload (V : Type 0) : Type 0 where
  pub id : Text
  pub url : Text
  pub word_count : ℕ
  pub vec : V

-- json.Marshal, which may fail, and json.Unmarshal.
pub record Json (V : Type 0) : Type 0 where
  pub marshal : Payload V → Option Text
  pub unmarshal : Text → Option (Payload V)

-- What is marshalled is unmarshalled again.
abbrev pub IsJson : (V : Type 0) → Json V → Type 0
IsJson V json =
    (p : Payload V) (body : Text) → json.marshal p ≡ some body → json.unmarshal body ≡ some p

-- What CheckContent does: it waits for its own lock, panics, or returns.
pub data Checked (V : Type 0) : Type 0 where
  blocked panicked : Checked V
  returned : Bool → Option (Document V) → Option Failure → Checked V

module _ (Db V : Type 0) (store : Store Db) (json : Json V) where
  unfoldable pub document_to_bytes : Document V → Option Text
  document_to_bytes doc =
      json.marshal
        (record { id = doc.id; url = doc.url; word_count = doc.word_count; vec = doc.word_vec })

  unfoldable pub bytes_to_document : Text → Failure ⊎ Document V
  bytes_to_document body = elim (json.unmarshal body) [
    | none ↦ inl bad_json
    | some p ↦
        if length p.id == 32
        then inr (record { id = p.id; url = p.url; word_count = p.word_count; word_vec = p.vec })
        else inl bad_id
  ]

  -- One Txn.Set in an update, with the error returned.
  unfoldable pub update : Text → Text → Db → Db × Option Failure
  update key value db = elim (store.set key value db) [
    | none ↦ (db, some write_failed)
    | some after ↦ (after, none)
  ]

  unfoldable pub save_document : Document V → Db → Db × Option Failure
  save_document doc db = elim (document_to_bytes doc) [
    | none ↦ (db, some bad_json)
    | some body ↦ update (document_key doc.id) body db
  ]

  unfoldable pub get_document_by_id : Text → Db → Failure ⊎ Document V
  get_document_by_id id db = elim (store.get (document_key id) db) [
    | none ↦ inl not_found
    | some body ↦ bytes_to_document body
  ]

  -- The loop of GetAllDocuments.
  unfoldable pub read_documents :
      List (Text × Text) → List (Document V) → Failure ⊎ List (Document V)
  read_documents [] documents = inr documents
  read_documents ((key, body) ∷ entries) documents = elim (bytes_to_document body) [
    | inl e ↦ inl e
    | inr doc ↦ read_documents entries (documents ++ doc ∷ [])
  ]

  unfoldable pub get_all_documents : Db → Failure ⊎ List (Document V)
  get_all_documents db = read_documents (store.scan document_key_prefix db) []

  unfoldable pub get_documents_count : Db → ℕ
  get_documents_count db = length (store.scan (codes "doc:") db)

  unfoldable pub sum_counts : ℕ → List (Document V) → ℕ
  sum_counts word_count [] = word_count
  sum_counts word_count (doc ∷ docs) = sum_counts (word_count + doc.word_count) docs

  -- The dividend and the divisor of the quotient that GetAVGLen returns.
  unfoldable pub get_avg_len : Db → Failure ⊎ (ℕ × ℕ)
  get_avg_len db = elim (get_all_documents db) [
    | inl e ↦ inl e
    | inr docs ↦ inr (sum_counts 0 docs, length docs)
  ]

  -- A found mark calls GetDocumentByID, which takes the lock that CheckContent holds.
  unfoldable pub check_content : Text → Text → Db → Db × Checked V
  check_content id hash db = elim (store.scan (hash ++ (b'_' ∷ [])) db) [
    | (k, v) ∷ entries ↦ (db, if ltb (length (drop 33 k)) 32 then panicked else blocked)
    | [] ↦ let (after, err) = update (hash ++ (b'/' ∷ id)) [] db in (after, returned false none err)
  ]

  unfoldable pub index_urls_by_hash : Text → Text → Db → Db × Option Failure
  index_urls_by_hash hash urls_struct db = update (urls_key hash) urls_struct db

  unfoldable pub get_page_urls_by_hash : Text → Db → Failure ⊎ Text
  get_page_urls_by_hash hash db = elim (store.get (urls_key hash) db) [
    | none ↦ inl not_found
    | some urls_struct ↦ inr urls_struct
  ]
