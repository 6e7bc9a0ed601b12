-- ===== src/Prelude/Unique.antt =====
-- Maps where no key stands twice.
use monocle.Prelude.{
  suc, ◌≡◌, ◌≢◌, true, refl, sym, ◌∙◌, ap, Bool-cases, inl, inr, none, some, List, [], ◌∷◌, ◌++◌,
  map, length, arith,
}
use monocle.Prelude.Assoc.{lookup, insert, delete, lookup-insert, lookup-delete}
use monocle.Prelude.Text.{Text, eqb, eqb_iff, eqb_refl}

-- No key stands twice.
abbrev pub IsUnique : {A : Type 0} → List (Text × A) → Type 0
IsUnique [] = Unit
IsUnique ((k, v) ∷ m) = (lookup k m ≡ none) × IsUnique m

module _ {V : Type 0} where
  pub insert-IsUnique :
      (k : Text) (v : V) (m : List (Text × V)) → IsUnique m → IsUnique (insert k v m)
  unfolding insert
  insert-IsUnique k v [] h = (unfold lookup in refl, tt)
  insert-IsUnique k v ((j, w) ∷ m) (fresh, h) = elim (Bool-cases (eqb j k)) [
    | inl same ↦ rw same (ap (λ x. lookup x m) (sym ((eqb_iff j k).0 same)) ∙ fresh, h)
    | inr other ↦ rw other (
      lookup-insert k j v m ∙ ground (arith, eqb_iff k j, eqb_iff j k, fresh, other),
      insert-IsUnique k v m h,
    )
  ]

  pub delete-IsUnique : (k : Text) (m : List (Text × V)) → IsUnique m → IsUnique (delete k m)
  unfolding delete
  delete-IsUnique k [] h = tt
  delete-IsUnique k ((j, w) ∷ m) (fresh, h) = elim (Bool-cases (eqb j k)) [
    | inl same ↦ rw same (delete-IsUnique k m h)
    | inr other ↦ rw other (lookup-delete k j m ∙ ground (arith, fresh), delete-IsUnique k m h)
  ]

  pub delete_absent : (k : Text) (m : List (Text × V)) → lookup k m ≡ none → delete k m ≡ m
  unfolding lookup delete
  delete_absent k [] h = refl
  delete_absent k ((j, w) ∷ m) h = ground (arith, h, delete_absent k m)

  pub length-insert :
      (k : Text) (v : V) (m : List (Text × V))
      → lookup k m ≡ none
      → length (insert k v m) ≡ suc (length m)
  unfolding lookup insert
  length-insert k v [] h = refl
  length-insert k v ((j, w) ∷ m) h = ground (arith, h, length-insert k v m)

  pub length-delete :
      (k : Text) (v : V) (m : List (Text × V))
      → IsUnique m
      → lookup k m ≡ some v
      → suc (length (delete k m)) ≡ length m
  unfolding lookup delete
  length-delete k v [] u h = ground (arith, h)
  length-delete k v ((j, w) ∷ m) (fresh, u) h =
      ground (arith, h, fresh, eqb_iff j k, length-delete k v m u, delete_absent k m)

-- The entries `f x` of a list.
module _ {A : Type 0} {V : Type 0} (f : A → Text × V) where
  clash :
      (m : List (Text × V)) (k j : Text) (v : V)
      → eqb k j ≡ true
      → lookup k m ≡ none
      → lookup j m ≢ some v
  clash m k j v same absent found =
      ground (arith, absent, found, ap (λ i. lookup i m) ((eqb_iff k j).0 same))

  pub lookup-map :
      (before after : List A) (q : A)
      → IsUnique (map f (before ++ q ∷ after))
      → lookup (f q).0 (map f (before ++ q ∷ after)) ≡ some (f q).1
  unfolding lookup
  lookup-map [] after q h = rw (eqb_refl (f q).0) refl
  lookup-map (x ∷ xs) after q (fresh, h) = elim (Bool-cases (eqb (f x).0 (f q).0)) [
    | inl same ↦ absurd (clash _ (f x).0 (f q).0 (f q).1 same fresh (lookup-map xs after q h))
    | inr other ↦ rw other (lookup-map xs after q h)
  ]

  pub delete-map :
      (before after : List A) (q : A)
      → IsUnique (map f (before ++ q ∷ after))
      → delete (f q).0 (map f (before ++ q ∷ after)) ≡ map f (before ++ after)
  unfolding delete
  delete-map [] after q (fresh, h) =
      rw (eqb_refl (f q).0) (delete_absent (f q).0 (map f after) fresh)
  delete-map (x ∷ xs) after q (fresh, h) = elim (Bool-cases (eqb (f x).0 (f q).0)) [
    | inl same ↦ absurd (clash _ (f x).0 (f q).0 (f q).1 same fresh (lookup-map xs after q h))
    | inr other ↦ rw other (ap (◌∷◌ (f x)) (delete-map xs after q h))
  ]

  -- Where the entry of a key stands.
  pub lookup-split :
      (xs : List A) (k : Text) (v : V)
      → lookup k (map f xs) ≡ some v
      → (before : List A) × (q : A) × (after : List A) × (xs ≡ before ++ q ∷ after)
        × ((f q).0 ≡ k)
        × ((f q).1 ≡ v)
  unfolding lookup
  lookup-split [] k v h = ground (arith, h)
  lookup-split (x ∷ xs) k v h = elim (Bool-cases (eqb (f x).0 k)) [
    | inl same ↦ ([], x, xs, refl, (eqb_iff (f x).0 k).0 same, ground (arith, h, same))
    | inr other ↦
        let (before, q, after, e, key, value) = lookup-split xs k v (ground (arith, h, other)) in
        (x ∷ before, q, after, ap (◌∷◌ x) e, key, value)
  ]
