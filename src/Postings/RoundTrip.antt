-- ===== src/Postings/RoundTrip.antt =====
-- A document that is indexed is found again by each of its words.
use monocle.Prelude.{
  ℕ, ◌≡◌, refl, sym, ◌∙◌, ap, inl, inr, Bool-cases, Option, none, some, List, [], ◌∷◌, ◌++◌, length,
  take_whole, ◌-◌, drop-append_length, append-nil, All, arith, if◌then◌else◌,
}
use monocle.Prelude.Assoc.{lookup}
use monocle.Prelude.Text.{Text, eqb, eqb_iff, append_cancel}
use monocle.Prelude.Hex.{hex, decode_hex-hex, IsByte}
use monocle.Store.{Store, IsStore, IsReliable}
use monocle.Prelude.Unique.{IsUnique}
use monocle.Store.Gather.{
  gather_lem, then_value, Decodes, All-lookup, scan_found, lookup-scan_prefix,
}
use monocle.Proximity.{Position}
use monocle.Postings.{
  Posting, Json, word_prefix, posting_of, to_id, zeros, decode_posting, get_documents_by_word,
  index_document_words,
}
use monocle.Postings.Keys.{IsPlain, posting_key, hex_injective, eqb-hex, eqb-word_key}
use monocle.Postings.Stored.{IsJson, IsFitting, written, write_chunks_lem}

-- 32 bytes.
abbrev pub IsId : Text → Type 0
IsId id = (length id ≡ 32) × All IsByte id

posting_key_injective : (word i j : Text) → posting_key word i ≡ posting_key word j → i ≡ j
posting_key_injective word i j e =
    hex_injective i j (append_cancel (word_prefix word) (hex i) (hex j) e)

to_id_lem : (id : Text) → length id ≡ 32 → to_id id ≡ id
unfolding to_id
to_id_lem id h =
    let none_missing : 32 - length id ≡ 0 = omega (arith, h) in
    rw (to_id, none_missing, take_whole id 32 (omega (arith, h))) (unfold zeros in append-nil id)

module _ (Db : Type 0) (store : Store Db) (json : Json) (lawful : IsStore Db store) where
  -- What is stored under the prefix of a word is a posting of some document.
  abbrev pub HasPostings : Text → Db → Type 0
  HasPostings word db =
      (rest value : Text)
      → store.get (word_prefix word ++ rest) db ≡ some value
      → (id : Text) × (p : Posting) × (rest ≡ hex id) × IsId id × (json.unmarshal value ≡ some p)

  decode_posting_lem :
      (word id value : Text) (p : Posting)
      → IsId id
      → json.unmarshal value ≡ some p
      → decode_posting Db store json word (posting_key word id) value ≡ inr (id, p)
  unfolding decode_posting
  decode_posting_lem word id value p (size, bytes) read =
      rw
        (
          decode_posting,
          drop-append_length (word_prefix word) (hex id),
          decode_hex-hex id bytes,
          read,
        )
        (ap (λ i. inr (i, p)) (to_id_lem id size))

  entries-Decodes :
      (word : Text) (db : Db)
      → HasPostings word db
      → All
          (Decodes (decode_posting Db store json word) (posting_key word) json.unmarshal)
          (store.scan (word_prefix word) db)
  entries-Decodes word db h =
      All-lookup (Decodes (decode_posting Db store json word) (posting_key word) json.unmarshal)
        (store.scan (word_prefix word) db) (lawful.scan-IsUnique (word_prefix word) db)
        (λ k v found.
          let (rest, named, got) = scan_found Db store lawful (word_prefix word) k v db found in
          let (id, p, hexed, is_id, read) = h rest v got in
          let named' : k ≡ posting_key word id = named ∙ ap (λ r. word_prefix word ++ r) hexed in
          (
            id,
            p,
            named',
            ap (λ x. decode_posting Db store json word x v) named'
                ∙ decode_posting_lem word id v p is_id read,
            read,
          ))

  -- Where what is stored under the prefix of a word are postings, the query for it gives them by their documents.
  get_documents_by_word_lem :
      (word : Text) (db : Db)
      → HasPostings word db
      → (out : List (Text × Posting)) × (get_documents_by_word Db store json word db ≡ (out, none))
        × ((i : Text)
            → lookup i out ≡ then_value json.unmarshal (store.get (posting_key word i) db) none)
  unfolding get_documents_by_word
  get_documents_by_word_lem word db h =
      let (out, run, found) =
        gather_lem (decode_posting Db store json word) (posting_key word) json.unmarshal
          (store.scan (word_prefix word) db) [] (posting_key_injective word)
          (lawful.scan-IsUnique (word_prefix word) db) (entries-Decodes word db h) in
      (
        out,
        run,
        λ i.
            found i
            ∙ ap (λ o. then_value json.unmarshal o (lookup i []))
                (lookup-scan_prefix Db store lawful (word_prefix word) (hex i) db)
            ∙ unfold lookup in refl,
      )

  module _ (reliable : IsReliable Db store) (j : IsJson json) (id : Text)
      (pos : List (Text × List Position)) where
    abbrev Fits : Text × ℕ → Type 0
    Fits = IsFitting Db store json lawful reliable j id pos

    abbrev stored_after : List (Text × ℕ) → Text → Option Text → Option Text
    stored_after = written Db store json lawful reliable j id pos

    -- The value for a word, where the entries have it.
    abbrev value_or : Text → Option ℕ → Option Text → Option Text
    value_or word none old = old
    value_or word (some freq) old = some (j.print (posting_of Db store json id pos word freq))

    written-word :
        (word rest : Text) (entries : List (Text × ℕ)) (old : Option Text)
        → IsPlain word
        → All (λ (e : Text × ℕ). IsPlain e.0) entries
        → IsUnique entries
        → stored_after entries (word_prefix word ++ rest) old
          ≡ (if eqb (hex id) rest then value_or word (lookup word entries) old else old)
    unfolding lookup
    written-word word rest [] old plain plains unique = ground arith
    written-word word rest ((w, freq) ∷ entries) old plain (p, plains) (fresh, unique) =
        written-word word rest entries _ plain plains unique
        ∙ rw (eqb-word_key w word id rest p plain) (elim (Bool-cases (eqb w word)) [
          | inr other ↦ rw other
          | inl same ↦
              let w=word : w ≡ word = (eqb_iff w word).0 same in
              let absent : lookup word entries ≡ none =
                ap (λ x. lookup x entries) (sym w=word) ∙ fresh in
              rw (same, absent)
                (elim (Bool-cases (eqb (hex id) rest)) [
                  | inl here ↦
                      rw here
                        (ap (λ x. some (j.print (posting_of Db store json id pos x freq))) w=word)
                  | inr elsewhere ↦ rw elsewhere
                ])
        ])

    -- The posting of the document for a word, where it has the word.
    abbrev pub posted_or : Text → Option ℕ → Option Posting → Option Posting
    posted_or word none old = old
    posted_or word (some freq) old = some (posting_of Db store json id pos word freq)

    posted_lem :
        (word : Text) (o : Option ℕ) (old : Option Text)
        → then_value json.unmarshal (value_or word o old) none
          ≡ posted_or word o (then_value json.unmarshal old none)
    posted_lem word none old = refl
    posted_lem word (some freq) old = j.reads (posting_of Db store json id pos word freq)

    HasPostings-value_or :
        (word : Text) (o : Option ℕ) (rest value : Text) (old : Option Text)
        → IsId id
        → ((v : Text)
            → old ≡ some v
            → (i : Text) × (p : Posting) × (rest ≡ hex i) × IsId i × (json.unmarshal v ≡ some p))
        → rest ≡ hex id
        → value_or word o old ≡ some value
        → (i : Text) × (p : Posting) × (rest ≡ hex i) × IsId i × (json.unmarshal value ≡ some p)
    HasPostings-value_or word none rest value old is_id h here e = h value e
    HasPostings-value_or word (some freq) rest value old is_id h here e =
        let printed : j.print (posting_of Db store json id pos word freq) ≡ value = cc in
        (
          id,
          posting_of Db store json id pos word freq,
          here,
          is_id,
          ap json.unmarshal (sym printed) ∙ j.reads (posting_of Db store json id pos word freq),
        )

    -- A store whose entries under the word's prefix come from `db` and the document.
    abbrev Extends : Text → Option ℕ → Db → Db → Type 0
    Extends word o db after =
        (rest : Text)
        → store.get (word_prefix word ++ rest) after ≡ (
            if eqb (hex id) rest
            then value_or word o (store.get (word_prefix word ++ rest) db)
            else store.get (word_prefix word ++ rest) db)

    HasPostings-Extends :
        (word : Text) (o : Option ℕ) (db after : Db)
        → IsId id
        → HasPostings word db
        → Extends word o db after
        → HasPostings word after
    HasPostings-Extends word o db after is_id h stored = λ rest value e.
        elim (Bool-cases (eqb (hex id) rest)) [
          | inl same ↦
              HasPostings-value_or word o rest value (store.get (word_prefix word ++ rest) db) is_id
                (h rest) (sym ((eqb_iff (hex id) rest).0 same))
                (sym (
                    stored rest
                    ∙ ap
                        (λ b.
                          if b
                          then value_or word o (store.get (word_prefix word ++ rest) db)
                          else store.get (word_prefix word ++ rest) db)
                        same)
                  ∙ e)
          | inr other ↦ h rest value (
              sym (
                stored rest
                ∙ ap
                    (λ b.
                      if b
                      then value_or word o (store.get (word_prefix word ++ rest) db)
                      else store.get (word_prefix word ++ rest) db)
                    other)
              ∙ e)
        ]

    posted_at :
        (word i : Text) (o : Option ℕ) (old : Option Text)
        → then_value json.unmarshal (if eqb (hex id) (hex i) then value_or word o old else old) none
          ≡ (if eqb id i
              then posted_or word o (then_value json.unmarshal old none)
              else then_value json.unmarshal old none)
    posted_at word i o old = rw (eqb-hex id i) (elim (Bool-cases (eqb id i)) [
      | inl same ↦ rw same (posted_lem word o old)
      | inr other ↦ rw other
    ])

    -- Where every write succeeds, every value is at most a megabyte, no word has an underscore or stands twice and what
    -- was stored for the word are postings, IndexDocumentWords returns no error, and then the query for the word gives
    -- the document's posting, with its frequency and its first 500 positions, if the document has the word, and for
    -- each other document the posting that was stored.
    pub get_documents_by_word-index_document_words :
        (word : Text) (entries : List (Text × ℕ)) (db : Db)
        → IsId id
        → IsPlain word
        → All (λ (e : Text × ℕ). IsPlain e.0) entries
        → IsUnique entries
        → All Fits entries
        → HasPostings word db
        → (after : Db) × (out : List (Text × Posting)) × (index_document_words Db store json id pos
              entries db
            ≡ (after, none))
          × (get_documents_by_word Db store json word after ≡ (out, none))
          × ((i : Text)
              → lookup i out ≡ (
                  if eqb id i
                  then posted_or word
                      (lookup word entries)
                      (then_value json.unmarshal (store.get (posting_key word i) db) none)
                  else then_value json.unmarshal (store.get (posting_key word i) db) none))
    unfolding index_document_words
    get_documents_by_word-index_document_words word entries db is_id plain plains unique fits h =
        let (after, run, got) =
          write_chunks_lem Db store json lawful reliable j id pos (length entries) entries db
            (omega arith) fits in
        let stored : Extends word (lookup word entries) db after = λ rest.
          got (word_prefix word ++ rest) ∙ written-word word rest entries _ plain plains unique in
        let (out, query, found) =
          get_documents_by_word_lem word after
            (HasPostings-Extends word (lookup word entries) db after is_id h stored) in
        (
          after,
          out,
          run,
          query,
          λ i.
              found i
              ∙ ap (λ o. then_value json.unmarshal o none) (stored (hex i))
              ∙ posted_at word i (lookup word entries) (store.get (posting_key word i) db),
        )
