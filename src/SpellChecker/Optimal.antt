-- ===== src/SpellChecker/Optimal.antt =====
-- The recurrence of the edit distance over prefixes, and that no script costs less.
use monocle.Prelude.{
  ℕ, zero, suc, ◌+◌, ◌≤◌, ◌<◌, min, ◌≡◌, refl, none, some, List, [], ◌∷◌, Bool, true, false, ◌==◌,
  length, get_elem?, drop, arith, Bool-cases, inl, inr, ◌⊎◌, get_elem?_of_drop, length-drop, ap,
  ◌∙◌,
}
use monocle.Prelude.Maybe.{◌>>=◌}
use monocle.Prelude.Text.{Text}
use monocle.SpellChecker.Script.{Edit, keep, add, swap, apply, cost}

-- The words have the same rune at these places.
unfoldable pub same_at : Text → Text → ℕ → ℕ → Bool
same_at a b i j = elim (get_elem? a i) [
  | none ↦ false
  | some x ↦ elim (get_elem? b j) [ none ↦ false | some y ↦ x == y ]
]

-- What a script that has run says of its rest.
apply_nil : {v : Text} → apply [] [] ≡ some v → v ≡ []
apply_nil h = ground arith

apply_keep :
    (e : List Edit) {x y : ℕ} (u : Text) {v : Text}
    → apply (keep ∷ e) (x ∷ u) ≡ some (y ∷ v)
    → (x ≡ y) × (apply e u ≡ some v)
apply_keep e u h = ground arith

apply_add :
    (e : List Edit) (u : Text) (z : ℕ) {y : ℕ} {v : Text}
    → (apply e u >>= λ w. some (z ∷ w)) ≡ some (y ∷ v)
    → apply e u ≡ some v
apply_add e u z h = ground arith

lt_of_drop : {i : ℕ} (a : Text) {x : ℕ} {u : Text} → drop i a ≡ x ∷ u → i < length a
lt_of_drop {i} a p = omega (arith, ap length p, length-drop i a)

module _ (a b : Text) where
  -- The least cost of turning the first `i` runes of `a` into the first `j` of `b`.
  pub opt : ℕ → ℕ → ℕ
  opt zero j = j
  opt (suc i) zero = suc i
  opt (suc i) (suc j) = elim (same_at a b i j) [
    | true ↦ opt i j
    | false ↦ min (min (opt (suc i) j) (opt i (suc j))) (opt i j) + 1
  ]

  pub opt_same : (i j : ℕ) → same_at a b i j ≡ true → opt (suc i) (suc j) ≡ opt i j
  unfolding opt
  opt_same i j h = rw (h, opt)

  pub opt_other :
      (i j : ℕ)
      → same_at a b i j ≡ false
      → opt (suc i) (suc j) ≡ min (min (opt (suc i) j) (opt i (suc j))) (opt i j) + 1
  unfolding opt
  opt_other i j h = rw (h, opt)

  opt_cases :
      (i j : ℕ)
      → (opt (suc i) (suc j) ≡ opt i j)
        ⊎ (opt (suc i) (suc j) ≡ min (min (opt (suc i) j) (opt i (suc j))) (opt i j) + 1)
  opt_cases i j = elim (Bool-cases (same_at a b i j)) [
    | inl h ↦ inl (opt_same i j h)
    | inr h ↦ inr (opt_other i j h)
  ]

  pub opt_left : (i : ℕ) → opt i 0 ≡ i
  unfolding opt
  opt_left zero = refl
  opt_left (suc i) = refl

  pub opt_top : (j : ℕ) → opt 0 j ≡ j
  unfolding opt
  opt_top j = refl

  -- Neighbours in the table differ by one at most.
  opt_near :
      (i j : ℕ)
      → (opt i j ≤ opt i (suc j) + 1)
        × (opt i (suc j) ≤ opt i j + 1)
        × (opt (suc i) j ≤ opt i j + 1)
        × (opt i j ≤ opt (suc i) j + 1)
  opt_near zero zero = omega (arith, opt_top 0, opt_top 1, opt_left 1)
  opt_near zero (suc j) =
      omega
        (arith, opt_cases 0 j, opt_near zero j, opt_top j, opt_top (suc j), opt_top (suc (suc j)))
  opt_near (suc i) zero =
      omega
        (arith, opt_cases i 0, opt_near i 0, opt_left i, opt_left (suc i), opt_left (suc (suc i)))
  opt_near (suc i) (suc j) =
      omega
        (arith, opt_cases i (suc j), opt_near i (suc j), opt_cases (suc i) j, opt_near (suc i) j)

  opt-drop : (i j : ℕ) → opt (suc i) j ≤ opt i j + 1
  opt-drop i j = (opt_near i j).2

  opt-add : (i j : ℕ) → opt i (suc j) ≤ opt i j + 1
  opt-add i j = (opt_near i j).1

  opt-swap : (i j : ℕ) → opt (suc i) (suc j) ≤ opt i j + 1
  opt-swap i j = omega (arith, opt_cases i j)

  -- The distance is at least the difference of the lengths.
  pub opt-ge-sub : (i j : ℕ) → (i ≤ opt i j + j) × (j ≤ opt i j + i)
  opt-ge-sub zero j = omega (arith, opt_top j)
  opt-ge-sub (suc i) zero = omega (arith, opt_left (suc i))
  opt-ge-sub (suc i) (suc j) =
      omega (arith, opt_cases i j, opt-ge-sub i j, opt-ge-sub (suc i) j, opt-ge-sub i (suc j))

  same_of_get :
      (i j x : ℕ) → get_elem? a i ≡ some x → get_elem? b j ≡ some x → same_at a b i j ≡ true
  unfolding same_at
  same_of_get i j x p q = ground arith

  -- A script for the rests of the two words bounds the distance of the whole words.
  opt-le-cost :
      (e : List Edit) (i j : ℕ) (u v : Text)
      → drop i a ≡ u
      → drop j b ≡ v
      → i ≤ length a
      → j ≤ length b
      → apply e u ≡ some v
      → opt (length a) (length b) ≤ opt i j + cost e
  opt-le-cost [] i j [] v p q li lj h =
      let ei : i ≡ length a = omega (arith, ap length p, length-drop i a) in
      let ej : j ≡ length b = omega (arith, ap length (q ∙ apply_nil h), length-drop j b) in
      rw (ei, ej) (omega arith)
  opt-le-cost [] i j (x ∷ u) v p q li lj h = ground arith
  opt-le-cost (keep ∷ e) i j [] v p q li lj h = ground arith
  opt-le-cost (keep ∷ e) i j (x ∷ u) [] p q li lj h = ground arith
  opt-le-cost (keep ∷ e) i j (x ∷ u) (y ∷ v) p q li lj h =
      let (gx, p') = get_elem?_of_drop a i x u p in
      let (gy, q') = get_elem?_of_drop b j y v q in
      let (same, h') = apply_keep e u h in
      let gy' : get_elem? b j ≡ some x = rw same gy in
      omega (
        arith,
        opt-le-cost e (suc i) (suc j) u v p' q' (lt_of_drop a p) (lt_of_drop b q) h',
        opt_same i j (same_of_get i j x gx gy'),
      )
  opt-le-cost (Edit.drop ∷ e) i j [] v p q li lj h = ground arith
  opt-le-cost (Edit.drop ∷ e) i j (x ∷ u) v p q li lj h =
      let p' = (get_elem?_of_drop a i x u p).1 in
      omega (arith, opt-le-cost e (suc i) j u v p' q (lt_of_drop a p) lj h, opt-drop i j)
  opt-le-cost (add z ∷ e) i j u [] p q li lj h = ground arith
  opt-le-cost (add z ∷ e) i j u (y ∷ v) p q li lj h =
      let q' = (get_elem?_of_drop b j y v q).1 in
      omega (
        arith,
        opt-le-cost e i (suc j) u v p q' li (lt_of_drop b q) (apply_add e u z h),
        opt-add i j,
      )
  opt-le-cost (swap z ∷ e) i j [] v p q li lj h = ground arith
  opt-le-cost (swap z ∷ e) i j (x ∷ u) [] p q li lj h = ground arith
  opt-le-cost (swap z ∷ e) i j (x ∷ u) (y ∷ v) p q li lj h =
      let p' = (get_elem?_of_drop a i x u p).1 in
      let q' = (get_elem?_of_drop b j y v q).1 in
      omega (
        arith,
        opt-le-cost e (suc i) (suc j) u v p' q' (lt_of_drop a p) (lt_of_drop b q)
            (apply_add e u z h),
        opt-swap i j,
      )

  -- No script that turns `a` into `b` costs less than the recurrence says.
  pub opt-least : (e : List Edit) → apply e a ≡ some b → opt (length a) (length b) ≤ cost e
  opt-least e h =
      omega (arith, opt-le-cost e 0 0 a b refl refl (omega arith) (omega arith) h, opt_top 0)
