-- ===== src/Documents/Listing.antt =====
-- GetAllDocuments seeks the format of the keys and not their prefix.
use monocle.Prelude.{
  ◌≡◌, ◌∙◌, inl, inr, true, false, Bool-cases, Option-cases, none, List, [], ◌∷◌, ◌++◌, All,
}
use monocle.Prelude.Text.{Text, codes, eqb, eqb_iff, append_cancel, has_prefix, has_prefix_iff}
use monocle.Store.{Store, IsStore}
use monocle.Store.Gather.{scan_empty}
use monocle.Indexer.{Document}
use monocle.Documents.{
  document_key, document_key_prefix, Json, document_to_bytes, save_document, read_documents,
  get_all_documents, sum_counts, get_avg_len,
}
use monocle.Documents.RoundTrip.{get-update}

-- An id that does not start with the two bytes of "%s".
abbrev pub IsPlain : Text → Type 0
IsPlain id = has_prefix id (codes "%s") ≡ false

elsewhere :
    (id rest : Text) → IsPlain id → eqb (document_key id) (document_key_prefix ++ rest) ≡ false
unfolding document_key document_key_prefix
elsewhere id rest plain = elim (Bool-cases (eqb (codes "doc:" ++ id) (codes "doc:%s" ++ rest))) [
  | inr other ↦ other
  | inl same ↦
      let e : id ≡ codes "%s" ++ rest =
        append_cancel (codes "doc:") id (codes "%s" ++ rest)
          ((eqb_iff (codes "doc:" ++ id) (codes "doc:%s" ++ rest)).0 same) in
      let starts : has_prefix id (codes "%s") ≡ true =
        (has_prefix_iff id (codes "%s")).1 (rest, e) in
      absurd cc
]

module _ (Db V : Type 0) (store : Store Db) (json : Json V) (lawful : IsStore Db store) where
  -- Nothing is stored under the format.
  abbrev pub IsUnlisted : Db → Type 0
  IsUnlisted db = (rest : Text) → store.get (document_key_prefix ++ rest) db ≡ none

  -- Documents saved one after the other, errors left aside.
  unfoldable pub save_all : List (Document V) → Db → Db
  save_all [] db = db
  save_all (doc ∷ docs) db = save_all docs (save_document Db V store json doc db).0

  save_document-IsUnlisted :
      (doc : Document V) (db : Db)
      → IsPlain doc.id
      → IsUnlisted db
      → IsUnlisted (save_document Db V store json doc db).0
  unfolding save_document
  save_document-IsUnlisted doc db plain h = λ rest.
      elim (Option-cases (document_to_bytes Db V store json doc)) [
        | inl fails ↦ rw (save_document, fails) (h rest)
        | inr (body, printed) ↦
            rw (save_document, printed)
              (get-update Db V store json lawful (document_key doc.id) body db
                  (document_key_prefix ++ rest) (elsewhere doc.id rest plain)
                ∙ h rest)
      ]

  save_all-IsUnlisted :
      (docs : List (Document V)) (db : Db)
      → All (λ (doc : Document V). IsPlain doc.id) docs
      → IsUnlisted db
      → IsUnlisted (save_all docs db)
  unfolding save_all
  save_all-IsUnlisted [] db plain h = h
  save_all-IsUnlisted (doc ∷ docs) db (p, plain) h =
      save_all-IsUnlisted docs (save_document Db V store json doc db).0 plain
        (save_document-IsUnlisted doc db p h)

  -- Where nothing is stored under the format "doc:%s", whatever documents are saved whose ids do not start with "%s",
  -- GetAllDocuments then finds none, and GetAVGLen divides 0 by 0.
  pub get_avg_len-save_all :
      (docs : List (Document V)) (db : Db)
      → All (λ (doc : Document V). IsPlain doc.id) docs
      → IsUnlisted db
      → (get_all_documents Db V store json (save_all docs db) ≡ inr [])
        × (get_avg_len Db V store json (save_all docs db) ≡ inr (0, 0))
  unfolding get_all_documents get_avg_len read_documents sum_counts
  get_avg_len-save_all docs db plain h =
      let nothing =
        scan_empty Db store lawful document_key_prefix (save_all docs db)
          (save_all-IsUnlisted docs db plain h) in
      (rw (get_all_documents, nothing), rw (get_avg_len, get_all_documents, nothing))
