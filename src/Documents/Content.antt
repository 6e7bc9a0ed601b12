-- ===== src/Documents/Content.antt =====
-- CheckContent looks for other keys than it writes.
use monocle.Prelude.{
  ℕ, ◌≡◌, ◌≢◌, sym, ◌∙◌, ap, inl, inr, false, Bool-cases, Option, none, [], ◌∷◌, ◌++◌, length, drop,
  append_assoc, arith,
}
use monocle.Prelude.Text.{Text, eqb, eqb_iff}
use monocle.Store.{Store, IsStore, Failure}
use monocle.Store.Gather.{scan_empty}
use monocle.Documents.{Json, returned, update, check_content}
use monocle.Documents.RoundTrip.{get-update}

first : Text → ℕ
first [] = 0
first (c ∷ s) = c

marks_differ :
    (h1 h2 id rest : Text) → length h1 ≡ length h2 → h1 ++ (b'/' ∷ id) ≢ h2 ++ (b'_' ∷ rest)
unfolding first
marks_differ [] [] id rest e h = absurd (omega (arith, ap first h))
marks_differ [] (y ∷ h2) id rest e h = absurd (omega (arith, e))
marks_differ (x ∷ h1) [] id rest e h = absurd (omega (arith, e))
marks_differ (x ∷ h1) (y ∷ h2) id rest e h =
    marks_differ h1 h2 id rest (omega (arith, e)) (ap (drop 1) h)

module _ (Db V : Type 0) (store : Store Db) (json : Json V) (lawful : IsStore Db store) where
  -- No key is a hash of 32 bytes and "_".
  abbrev pub IsUnmarked : Db → Type 0
  IsUnmarked db =
      (hash rest : Text) → length hash ≡ 32 → store.get (hash ++ (b'_' ∷ rest)) db ≡ none

  check_content_lem :
      (id hash : Text) (db : Db)
      → length hash ≡ 32
      → IsUnmarked db
      → check_content Db V store json id hash db ≡ (
        (update Db V store json (hash ++ (b'/' ∷ id)) [] db).0,
        returned false none (update Db V store json (hash ++ (b'/' ∷ id)) [] db).1,
      )
  unfolding check_content
  check_content_lem id hash db size h =
      let nothing = scan_empty Db store lawful (hash ++ (b'_' ∷ [])) db (λ rest.
        ap (λ k. store.get k db) (append_assoc hash (b'_' ∷ []) rest) ∙ h hash rest size) in
      rw (check_content, nothing)

  -- Where no key is a hash and "_", CheckContent says of every content that it is new, also of one that was checked
  -- before, and again no key is a hash and "_".
  pub check_content-IsUnmarked :
      (id hash : Text) (db : Db)
      → length hash ≡ 32
      → IsUnmarked db
      → (after : Db) × (err : Option Failure) × (check_content Db V store json id hash db
          ≡ (after, returned false none err))
        × IsUnmarked after
  check_content-IsUnmarked id hash db size h = (
    (update Db V store json (hash ++ (b'/' ∷ id)) [] db).0,
    (update Db V store json (hash ++ (b'/' ∷ id)) [] db).1,
    check_content_lem id hash db size h,
    λ other rest size'.
        get-update Db V store json lawful (hash ++ (b'/' ∷ id)) [] db (other ++ (b'_' ∷ rest))
          (elim (Bool-cases (eqb (hash ++ (b'/' ∷ id)) (other ++ (b'_' ∷ rest)))) [
            | inr differ ↦ differ
            | inl same ↦ absurd (
                marks_differ hash other id rest (size ∙ sym size')
                  ((eqb_iff (hash ++ (b'/' ∷ id)) (other ++ (b'_' ∷ rest))).0 same))
          ])
        ∙ h other rest size',
  )
