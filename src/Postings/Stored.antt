-- ===== src/Postings/Stored.antt =====
-- What IndexDocumentWords leaves in the store.
use monocle.Prelude.{
  ℕ, zero, suc, ◌≤◌, ◌≡◌, refl, sym, ◌∙◌, ap, inr, false, Option, none, some, List, [], ◌∷◌, ◌++◌,
  length, take, drop, take-append-drop, All, All-take, All-drop, length-drop, arith, if◌then◌else◌,
}
use monocle.Prelude.Text.{Text, eqb}
use monocle.Store.{Store, IsStore, IsReliable}
use monocle.Proximity.{Position}
use monocle.Postings.{
  Posting, Json, word_key, iter_size, is_too_long, posting_of, write_chunk, write_chunks,
}

-- Every posting can be marshalled, and is unmarshalled again.
pub record IsJson (json : Json) : Type 0 where
  pub print : Posting → Text
  pub prints : (p : Posting) → json.marshal p ≡ some (print p)
  pub reads : (p : Posting) → json.unmarshal (print p) ≡ some p

module _ (Db : Type 0) (store : Store Db) (json : Json) (lawful : IsStore Db store)
    (reliable : IsReliable Db store) (j : IsJson json) (id : Text)
    (pos : List (Text × List Position)) where
  -- An entry whose value is at most a megabyte.
  abbrev pub IsFitting : Text × ℕ → Type 0
  IsFitting (w, freq) = is_too_long (j.print (posting_of Db store json id pos w freq)) ≡ false

  -- The value under a key after the entries are written, from the one before.
  abbrev pub written : List (Text × ℕ) → Text → Option Text → Option Text
  written [] key old = old
  written ((w, freq) ∷ entries) key old = written entries key (
      if eqb (word_key w id) key
      then some (j.print (posting_of Db store json id pos w freq))
      else old)

  written-append :
      (xs ys : List (Text × ℕ)) (key : Text) (old : Option Text)
      → written (xs ++ ys) key old ≡ written ys key (written xs key old)
  written-append [] ys key old = refl
  written-append ((w, freq) ∷ xs) ys key old = written-append xs ys key _

  write_chunk_step :
      (w : Text) (freq : ℕ) (chunk : List (Text × ℕ)) (txn after : Db)
      → store.set (word_key w id) (j.print (posting_of Db store json id pos w freq)) txn
        ≡ some after
      → IsFitting (w, freq)
      → write_chunk Db store json id pos ((w, freq) ∷ chunk) txn
        ≡ write_chunk Db store json id pos chunk after
  unfolding write_chunk
  write_chunk_step w freq chunk txn after run fits =
      rw (write_chunk, j.prints (posting_of Db store json id pos w freq), fits, run)

  write_chunk_lem :
      (chunk : List (Text × ℕ)) (txn : Db)
      → All IsFitting chunk
      → (after : Db) × (write_chunk Db store json id pos chunk txn ≡ inr after)
        × ((key : Text) → store.get key after ≡ written chunk key (store.get key txn))
  write_chunk_lem [] txn h = (txn, unfold write_chunk in refl, λ key. refl)
  write_chunk_lem ((w, freq) ∷ chunk) txn (fits, h) =
      let value = j.print (posting_of Db store json id pos w freq) in
      let (mid, set) = reliable (word_key w id) value txn in
      let (after, run, got) = write_chunk_lem chunk mid h in
      (
        after,
        write_chunk_step w freq chunk txn mid set fits ∙ run,
        λ key.
            got key ∙ ap (written chunk key) (lawful.get-set (word_key w id) value txn mid key set),
      )

  write_chunks_step :
      (fuel : ℕ) (entry : Text × ℕ) (entries : List (Text × ℕ)) (db after : Db)
      → write_chunk Db store json id pos (take iter_size (entry ∷ entries)) db ≡ inr after
      → write_chunks Db store json id pos (suc fuel) (entry ∷ entries) db
        ≡ write_chunks Db store json id pos fuel (drop iter_size (entry ∷ entries)) after
  unfolding write_chunks
  write_chunks_step fuel entry entries db after run = rw (write_chunks, run)

  pub write_chunks_lem :
      (fuel : ℕ) (entries : List (Text × ℕ)) (db : Db)
      → length entries ≤ fuel
      → All IsFitting entries
      → (after : Db) × (write_chunks Db store json id pos fuel entries db ≡ (after, none))
        × ((key : Text) → store.get key after ≡ written entries key (store.get key db))
  write_chunks_lem zero [] db h fits = (db, unfold write_chunks in refl, λ key. refl)
  write_chunks_lem zero (entry ∷ entries) db h fits = absurd (omega (arith, h))
  write_chunks_lem (suc fuel) [] db h fits = (db, unfold write_chunks in refl, λ key. refl)
  write_chunks_lem (suc fuel) (entry ∷ entries) db h fits =
      let all : List (Text × ℕ) = entry ∷ entries in
      let (mid, first, got) =
        write_chunk_lem (take iter_size all) db (All-take IsFitting iter_size all fits) in
      let (after, run, got') =
        write_chunks_lem fuel (drop iter_size all) mid (omega (arith, h, length-drop iter_size all))
          (All-drop IsFitting iter_size all fits) in
      (
        after,
        write_chunks_step fuel entry entries db mid first ∙ run,
        λ key.
            got' key
            ∙ ap (written (drop iter_size all) key) (got key)
            ∙ sym (written-append (take iter_size all) (drop iter_size all) key (store.get key db))
            ∙ ap (λ l. written l key (store.get key db)) (take-append-drop iter_size all),
      )
