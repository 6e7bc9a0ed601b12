-- ===== src/Documents/RoundTrip.antt =====
-- What is saved of a document is read again, and nothing else changes.
use monocle.Prelude.{
  ◌≡◌, refl, ◌∙◌, ap, inl, inr, false, Bool-cases, Option-cases, ==_iff, Option, none, some, length,
  if◌then◌else◌, arith,
}
use monocle.Prelude.Text.{Text, codes, eqb, eqb-append}
use monocle.Store.{Store, IsStore, IsReliable, not_found}
use monocle.Indexer.{Document}
use monocle.Documents.{
  document_key, urls_key, Json, IsJson, document_to_bytes, bytes_to_document, update, save_document,
  get_document_by_id, index_urls_by_hash, get_page_urls_by_hash,
}

eqb-document_key : (i j : Text) → eqb (document_key i) (document_key j) ≡ eqb i j
unfolding document_key
eqb-document_key i j = eqb-append (codes "doc:") i j

eqb-urls_key-document_key : (i j : Text) → eqb (urls_key i) (document_key j) ≡ false
unfolding document_key urls_key eqb
eqb-urls_key-document_key i j = refl

eqb-document_key-urls_key : (i j : Text) → eqb (document_key i) (urls_key j) ≡ false
unfolding document_key urls_key eqb
eqb-document_key-urls_key i j = refl

eqb-urls_key : (i j : Text) → eqb (urls_key i) (urls_key j) ≡ eqb i j
unfolding urls_key
eqb-urls_key i j = eqb-append (codes "hashKey:") i j

module _ (Db V : Type 0) (store : Store Db) (json : Json V) (lawful : IsStore Db store) where
  -- Other keys keep their values, whether the update succeeds or not.
  pub get-update :
      (key value : Text) (db : Db) (j : Text)
      → eqb key j ≡ false
      → store.get j (update Db V store json key value db).0 ≡ store.get j db
  unfolding update
  get-update key value db j other = elim (Option-cases (store.set key value db)) [
    | inl fails ↦ ground arith
    | inr (after, run) ↦
        rw (update, run)
          (lawful.get-set key value db after j run
            ∙ ap (λ b. if b then some value else store.get j db) other)
  ]

  updated :
      (key value : Text) (db : Db)
      → IsReliable Db store
      → (after : Db) × (update Db V store json key value db ≡ (after, none))
        × ((j : Text) → store.get j after ≡ (if eqb key j then some value else store.get j db))
  unfolding update
  updated key value db reliable =
      let (after, run) = reliable key value db in
      (after, rw (update, run), λ j. lawful.get-set key value db after j run)

  bytes_to_document_lem :
      (doc : Document V) (body : Text)
      → IsJson V json
      → length doc.id ≡ 32
      → document_to_bytes Db V store json doc ≡ some body
      → bytes_to_document Db V store json body ≡ inr doc
  unfolding bytes_to_document document_to_bytes
  bytes_to_document_lem doc body reads size printed =
      rw (bytes_to_document, reads _ body printed, (==_iff (length doc.id) 32).1 size)

  read_at :
      (id : Text) (db : Db) (o : Option Text)
      → store.get (document_key id) db ≡ o
      → get_document_by_id Db V store json id db
        ≡ elim o [ none ↦ inl not_found | some body ↦ bytes_to_document Db V store json body ]
  unfolding get_document_by_id
  read_at id db o h = rw (get_document_by_id, h)

  urls_at :
      (hash : Text) (db after : Db)
      → store.get (urls_key hash) after ≡ store.get (urls_key hash) db
      → get_page_urls_by_hash Db V store json hash after
        ≡ get_page_urls_by_hash Db V store json hash db
  unfolding get_page_urls_by_hash
  urls_at hash db after h = rw (get_page_urls_by_hash, h)

  urls_read_at :
      (hash : Text) (db : Db) (o : Option Text)
      → store.get (urls_key hash) db ≡ o
      → get_page_urls_by_hash Db V store json hash db
        ≡ elim o [ none ↦ inl not_found | some u ↦ inr u ]
  unfolding get_page_urls_by_hash
  urls_read_at hash db o h = rw (get_page_urls_by_hash, h)

  same_document :
      (id : Text) (db after : Db)
      → store.get (document_key id) after ≡ store.get (document_key id) db
      → get_document_by_id Db V store json id after ≡ get_document_by_id Db V store json id db
  unfolding get_document_by_id
  same_document id db after h = rw (get_document_by_id, h)

  -- Where a document with an id of 32 bytes can be marshalled and every write succeeds, SaveDocument returns no error;
  -- then GetDocumentByID gives the document under its id and what it gave before under every other id, and every list
  -- of URLs is as before.
  pub get_document_by_id-save_document :
      (doc : Document V) (body : Text) (db : Db)
      → IsReliable Db store
      → IsJson V json
      → length doc.id ≡ 32
      → document_to_bytes Db V store json doc ≡ some body
      → (after : Db) × (save_document Db V store json doc db ≡ (after, none))
        × ((id : Text)
            → get_document_by_id Db V store json id after
              ≡ (if eqb doc.id id then inr doc else get_document_by_id Db V store json id db))
        × ((hash : Text)
            → get_page_urls_by_hash Db V store json hash after
              ≡ get_page_urls_by_hash Db V store json hash db)
  unfolding save_document
  get_document_by_id-save_document doc body db reliable reads size printed =
      let (after, run, got) = updated (document_key doc.id) body db reliable in
      (
        after,
        rw (save_document, printed) run,
        λ id. elim (Bool-cases (eqb doc.id id)) [
          | inl same ↦ rw same (
              read_at id after (some body) (
                got (document_key id)
                ∙ ap (λ b. if b then some body else store.get (document_key id) db)
                    (eqb-document_key doc.id id ∙ same))
              ∙ bytes_to_document_lem doc body reads size printed)
          | inr other ↦ rw other (
              same_document id db after (
                got (document_key id)
                ∙ ap (λ b. if b then some body else store.get (document_key id) db)
                    (eqb-document_key doc.id id ∙ other)))
        ],
        λ hash. urls_at hash db after (
            got (urls_key hash)
            ∙ ap (λ b. if b then some body else store.get (urls_key hash) db)
                (eqb-document_key-urls_key doc.id hash)),
      )

  -- Where every write succeeds, IndexUrlsByHash returns no error; then GetPageUrlsByHash gives the bytes under their
  -- hash and what it gave before under every other hash, and every document is as before.
  pub get_page_urls_by_hash-index_urls_by_hash :
      (hash urls_struct : Text) (db : Db)
      → IsReliable Db store
      → (after : Db) × (index_urls_by_hash Db V store json hash urls_struct db ≡ (after, none))
        × ((h : Text)
            → get_page_urls_by_hash Db V store json h after ≡ (
                if eqb hash h then inr urls_struct else get_page_urls_by_hash Db V store json h db))
        × ((id : Text)
            → get_document_by_id Db V store json id after
              ≡ get_document_by_id Db V store json id db)
  unfolding index_urls_by_hash
  get_page_urls_by_hash-index_urls_by_hash hash urls_struct db reliable =
      let (after, run, got) = updated (urls_key hash) urls_struct db reliable in
      (
        after,
        run,
        λ h. elim (Bool-cases (eqb hash h)) [
          | inl same ↦ rw same (
              urls_read_at h after (some urls_struct) (
                got (urls_key h)
                ∙ ap (λ b. if b then some urls_struct else store.get (urls_key h) db)
                    (eqb-urls_key hash h ∙ same)))
          | inr other ↦ rw other (
              urls_at h db after (
                got (urls_key h)
                ∙ ap (λ b. if b then some urls_struct else store.get (urls_key h) db)
                    (eqb-urls_key hash h ∙ other)))
        ],
        λ id. same_document id db after (
            got (document_key id)
            ∙ ap (λ b. if b then some urls_struct else store.get (document_key id) db)
                (eqb-urls_key-document_key hash id)),
      )
