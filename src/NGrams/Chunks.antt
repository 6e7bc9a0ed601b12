-- ===== src/NGrams/Chunks.antt =====
-- What the database holds in the chunks of an n-gram, and what writing one chunk does to it.
use monocle.Prelude.{
  ℕ, zero, suc, ◌≤◌, ◌≡◌, ◌≢◌, refl, ◌∙◌, ap, Bool-cases, inl, inr, Option, none, some, List, [],
  ◌++◌, arith,
}
use mathlib.Core.Path.{ap₂}
use monocle.Prelude.Text.{Text, eqb, eqb_iff, eqb_refl}
use monocle.Store.{Store, IsStore}
use monocle.NGrams.{chunk_key}
use monocle.NGrams.Keys.{chunk_key_injective}

module _ (Db : Type 0) (store : Store Db) (unmarshal : Text → Option (List Text)) where
  -- The words of a value, none where there is none or it is no list.
  abbrev pub words_of : Option Text → List Text
  words_of none = []
  words_of (some value) = elim (unmarshal value) [ none ↦ [] | some words ↦ words ]

  -- The words of the chunks with the numbers from 1 to `k`.
  abbrev pub chunks_to : Text → ℕ → Db → List Text
  chunks_to ng zero db = []
  chunks_to ng (suc k) db = chunks_to ng k db ++ words_of (store.get (chunk_key ng (suc k)) db)

  module _ (lawful : IsStore Db store) (key value : Text) (db after : Db)
      (written : store.set key value db ≡ some after) where
    chunks_to-set :
        (ng : Text) (k : ℕ)
        → ((i : ℕ) → i ≤ k → key ≢ chunk_key ng i)
        → chunks_to ng k after ≡ chunks_to ng k db
    chunks_to-set ng zero h = refl
    chunks_to-set ng (suc k) h =
        ap₂ (λ xs ys. xs ++ words_of ys) (chunks_to-set ng k (λ i less. h i (omega (arith, less))))
          (lawful.get-set key value db after (chunk_key ng (suc k)) written
            ∙ elim (Bool-cases (eqb key (chunk_key ng (suc k)))) [
              | inl same ↦
                  absurd (h (suc k) (omega arith) ((eqb_iff key (chunk_key ng (suc k))).0 same))
              | inr other ↦ rw other refl
            ])

  module _ (lawful : IsStore Db store) (marshal : List Text → Text)
      (reads_back : (words : List Text) → unmarshal (marshal words) ≡ some words) (g : Text) (k : ℕ)
      (words : List Text) (db after : Db)
      (written : store.set (chunk_key g (suc k)) (marshal words) db ≡ some after) where
    -- The words of the new chunk follow those of the chunks before it.
    pub chunks_to-same : chunks_to g (suc k) after ≡ chunks_to g k db ++ words
    chunks_to-same =
        let read : store.get (chunk_key g (suc k)) after ≡ some (marshal words) =
          lawful.get-set (chunk_key g (suc k)) (marshal words) db after (chunk_key g (suc k))
            written
          ∙ rw (eqb_refl (chunk_key g (suc k))) refl in
        ap₂ (λ xs ys. xs ++ ys)
          (chunks_to-set lawful (chunk_key g (suc k)) (marshal words) db after written g k
            (λ i less e. omega (arith, less, (chunk_key_injective g g (suc k) i e).1)))
          (ap words_of read ∙ rw (words_of, reads_back words) refl)

    pub chunks_to-other : (ng : Text) (n : ℕ) → g ≢ ng → chunks_to ng n after ≡ chunks_to ng n db
    chunks_to-other ng n differ =
        chunks_to-set lawful (chunk_key g (suc k)) (marshal words) db after written ng n
          (λ i less e. differ (chunk_key_injective g ng (suc k) i e).0)
