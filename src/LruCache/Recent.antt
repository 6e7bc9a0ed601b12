-- ===== src/LruCache/Recent.antt =====
-- The cache as the list of its entries, the last used one first.
use monocle.Prelude.{
  ℕ, ◌≡◌, ◌<◌, ◌≤◌, refl, sym, ◌∙◌, ap, ◌==◌, if◌then◌else◌, Option, none, some, List, [], ◌∷◌,
  ◌++◌, All, arith, length, map,
}
use mathlib.Core.Path.{subst}
use monocle.Prelude.Assoc.{lookup, delete}
use monocle.Prelude.Unique.{IsUnique, lookup-map, delete-map, lookup-split}
use monocle.Prelude.Text.{Text}
use monocle.LruCache.{Node, LruCache}
use monocle.LruCache.Chain.{Chain}

map_same : {A : Type 0} (f g : ℕ → A) → ((p : ℕ) → f p ≡ g p) → (ps : List ℕ) → map f ps ≡ map g ps
map_same f g h [] = refl
map_same f g h (p ∷ ps) = rw (h p) (ap (◌∷◌ (g p)) (map_same f g h ps))

module _ {V : Type 0} where
  -- A lookup makes its entry the most recent one.
  abbrev pub get_recent : Text → List (Text × Option V) → List (Text × Option V) × Option V
  get_recent k xs = elim (lookup k xs) [ none ↦ (xs, none) | some v ↦ ((k, v) ∷ delete k xs, v) ]

  abbrev pub without_last : List (Text × Option V) → List (Text × Option V)
  without_last [] = []
  without_last (x ∷ []) = []
  without_last (x ∷ y ∷ xs) = x ∷ without_last (y ∷ xs)

  -- A stored entry is the most recent one; where there is no room, the least recent one goes.
  abbrev pub put_recent : ℕ → Text → Option V → List (Text × Option V) → List (Text × Option V)
  put_recent capacity k v xs =
      let rest = delete k xs in
      (k, v) ∷ (if length rest == capacity then without_last rest else rest)

  abbrev pub keyed : (ℕ → Node V) → List ℕ → List (Text × ℕ)
  keyed nodes ps = map (λ p. ((nodes p).key, p)) ps

  abbrev pub contents : (ℕ → Node V) → List ℕ → List (Text × Option V)
  contents nodes ps = map (λ p. ((nodes p).key, (nodes p).value)) ps

  -- The nodes at `ps` are linked in this order, and the map finds each by its key.
  pub record IsCache (c : LruCache V) (ps : List ℕ) : Type 0 where
    pub chain : Chain c.nodes c.head ps c.tail
    pub made : All (λ p. p < c.size) (c.head ∷ ps)
    pub tail_made : c.tail < c.size
    pub sees : (k : Text) → lookup k c.mp ≡ lookup k (keyed c.nodes ps)
    pub unique : IsUnique (keyed c.nodes ps)
    pub unique_mp : IsUnique c.mp
    pub size_mp : length c.mp ≡ length ps
    pub room : length ps ≤ c.capacity

  -- What no operation on the links changes.
  pub record IsLike (c d : LruCache V) : Type 0 where
    pub head : d.head ≡ c.head
    pub tail : d.tail ≡ c.tail
    pub capacity : d.capacity ≡ c.capacity
    pub key : (p : ℕ) → (d.nodes p).key ≡ (c.nodes p).key
    pub value : (p : ℕ) → (d.nodes p).value ≡ (c.nodes p).value

  pub keyed_same :
      (m n : ℕ → Node V) (ps : List ℕ) → ((p : ℕ) → (n p).key ≡ (m p).key) → keyed n ps ≡ keyed m ps
  keyed_same m n ps h = map_same _ _ (λ p. ap (λ k. (k, p)) (h p)) ps

  pub contents_same :
      (c d : LruCache V) (ps : List ℕ) → IsLike c d → contents d.nodes ps ≡ contents c.nodes ps
  contents_same c d ps h = map_same _ _ (λ p. rw (h.key p, h.value p) refl) ps

  absent_same :
      (nodes : ℕ → Node V) (ps : List ℕ) (k : Text)
      → lookup k (keyed nodes ps) ≡ none
      → lookup k (contents nodes ps) ≡ none
  unfolding lookup
  absent_same nodes [] k h = refl
  absent_same nodes (p ∷ ps) k h = ground (arith, h, absent_same nodes ps k)

  contents-IsUnique :
      (nodes : ℕ → Node V) (ps : List ℕ) → IsUnique (keyed nodes ps) → IsUnique (contents nodes ps)
  contents-IsUnique nodes [] h = tt
  contents-IsUnique nodes (p ∷ ps) (fresh, h) =
      (absent_same nodes ps (nodes p).key fresh, contents-IsUnique nodes ps h)

  -- What the map and the list say of a key.
  module _ (c : LruCache V) (ps : List ℕ) (h : IsCache c ps) (k : Text) where
    pub absent_lem : lookup k c.mp ≡ none → lookup k (contents c.nodes ps) ≡ none
    absent_lem e = absent_same c.nodes ps k (sym (h.sees k) ∙ e)

    pub present_lem :
        (p : ℕ)
        → lookup k c.mp ≡ some p
        → (before : List ℕ) × (after : List ℕ) × (ps ≡ before ++ p ∷ after)
          × ((c.nodes p).key ≡ k)
          × (lookup k (contents c.nodes ps) ≡ some (c.nodes p).value)
          × (delete k (contents c.nodes ps) ≡ contents c.nodes (before ++ after))
    present_lem p e =
        let (before, q, after, split, key, at) =
          lookup-split (λ p. ((c.nodes p).key, p)) ps k p (sym (h.sees k) ∙ e) in
        let split' : ps ≡ before ++ p ∷ after = split ∙ ap (λ r. before ++ r ∷ after) at in
        let key' : (c.nodes p).key ≡ k = ap (λ r. (c.nodes r).key) (sym at) ∙ key in
        let f : ℕ → Text × Option V = λ p. ((c.nodes p).key, (c.nodes p).value) in
        let unique : IsUnique (map f (before ++ p ∷ after)) =
          subst (λ qs. IsUnique (map f qs)) split' (contents-IsUnique c.nodes ps h.unique) in
        (
          before,
          after,
          split',
          key',
          ap (λ qs. lookup k (map f qs)) split'
              ∙ ap (λ j. lookup j (map f (before ++ p ∷ after))) (sym key')
              ∙ lookup-map f before after p unique,
          ap (λ qs. delete k (map f qs)) split'
              ∙ ap (λ j. delete j (map f (before ++ p ∷ after))) (sym key')
              ∙ delete-map f before after p unique,
        )
