-- ===== src/SpellChecker/Distance.antt =====
-- `levenshteinDistance` returns the least cost of a script, up to its cut-off.
use monocle.Prelude.{
  ℕ, zero, suc, ◌+◌, ◌-◌, ◌≤◌, ◌<◌, min, ◌≡◌, refl, sym, ap, Option, none, some, List, [], ◌∷◌,
  ◌++◌, ◌⊎◌, inl, inr, true, ◌||◌, ltb, length, get_elem?, take, arith, Bool-cases, append-nil,
}
use monocle.Prelude.Maybe.{◌>>=◌}
use monocle.Prelude.Text.{Text}
use monocle.SpellChecker.{SpellChecker, levenshtein_distance}
use monocle.SpellChecker.Script.{Edit, keep, drop, add, swap, apply, cost}
use monocle.SpellChecker.Optimal.{
  same_at, opt, opt_same, opt_other, opt_left, opt_top, opt-ge-sub, opt-least,
}
use monocle.SpellChecker.Table.{fill_table-last}

cons_out :
    (m : Option Text) {y : ℕ} {v : Text}
    → (m >>= λ w. some (y ∷ w)) ≡ some v
    → (w : Text) × (m ≡ some w) × (v ≡ y ∷ w)
cons_out none h = ground arith
cons_out (some w) h = (w, refl, cc)

apply-append :
    (e f : List Edit) (u w : Text) {v z : Text}
    → apply e u ≡ some v
    → apply f w ≡ some z
    → apply (e ++ f) (u ++ w) ≡ some (v ++ z)
apply-append [] f [] w {v} p q = let e : v ≡ [] = cc in rw e q
apply-append [] f (x ∷ u) w p q = ground arith
apply-append (keep ∷ e) f [] w p q = ground arith
apply-append (keep ∷ e) f (x ∷ u) w p q =
    let (v', ran, eq) = cons_out (apply e u) p in rw (apply-append e f u w ran q, eq)
apply-append (drop ∷ e) f [] w p q = ground arith
apply-append (drop ∷ e) f (x ∷ u) w p q = apply-append e f u w p q
apply-append (add y ∷ e) f u w p q =
    let (v', ran, eq) = cons_out (apply e u) p in rw (apply-append e f u w ran q, eq)
apply-append (swap y ∷ e) f [] w p q = ground arith
apply-append (swap y ∷ e) f (x ∷ u) w p q =
    let (v', ran, eq) = cons_out (apply e u) p in rw (apply-append e f u w ran q, eq)

cost-append : (e f : List Edit) → cost (e ++ f) ≡ cost e + cost f
cost-append [] f = omega arith
cost-append (keep ∷ e) f = cost-append e f
cost-append (drop ∷ e) f = omega (arith, cost-append e f)
cost-append (add y ∷ e) f = omega (arith, cost-append e f)
cost-append (swap y ∷ e) f = omega (arith, cost-append e f)

take-suc {ℓ} :
    {A : Type ℓ} (xs : List A) (i : ℕ)
    → i < length xs
    → (x : A) × (get_elem? xs i ≡ some x) × (take (suc i) xs ≡ take i xs ++ x ∷ [])
take-suc [] i h = elim h [ ]
take-suc (x ∷ xs) zero h = (x, refl, refl)
take-suc (x ∷ xs) (suc i) h =
    let (y, got, e) = take-suc xs i (omega arith) in (y, got, ap (◌∷◌ x) e)

take_all {ℓ} : {A : Type ℓ} (xs : List A) → take (length xs) xs ≡ xs
take_all [] = refl
take_all (x ∷ xs) = ap (◌∷◌ x) (take_all xs)

same_get :
    (a b : Text) (i j x y : ℕ)
    → get_elem? a i ≡ some x
    → get_elem? b j ≡ some y
    → same_at a b i j ≡ true
    → x ≡ y
unfolding same_at
same_get a b i j x y p q h = ground arith

module _ (a b : Text) where
  -- A script for two prefixes.
  abbrev Script : ℕ → ℕ → ℕ → Type 0
  Script n i j = (e : List Edit) × (apply e (take i a) ≡ some (take j b)) × (cost e ≡ n)

  extend :
      (f : Edit) (i j i' j' n m : ℕ) (u v : Text)
      → take i' a ≡ take i a ++ u
      → take j' b ≡ take j b ++ v
      → apply (f ∷ []) u ≡ some v
      → n + cost (f ∷ []) ≡ m
      → Script n i j
      → Script m i' j'
  extend f i j i' j' n m u v p q step c (e, ran, costs) = (
    e ++ f ∷ [],
    rw (p, q) (apply-append e (f ∷ []) (take i a) u ran step),
    omega (arith, cost-append e (f ∷ [])),
  )

  min_cases : (k l m : ℕ) → (min (min k l) m ≡ k) ⊎ (min (min k l) m ≡ l) ⊎ (min (min k l) m ≡ m)
  min_cases k l m = omega arith

  -- The recurrence's value is the cost of some script.
  opt-Script : (i j : ℕ) → i ≤ length a → j ≤ length b → Script (opt a b i j) i j
  opt-Script zero zero p q = ([], refl, sym (opt_top a b 0))
  opt-Script zero (suc j) p q =
      let (y, gy, take_b) = take-suc b j q in
      extend (add y) 0 j 0 (suc j) _ _ [] (y ∷ []) refl take_b refl
        (omega (arith, opt_top a b j, opt_top a b (suc j))) (opt-Script zero j p (omega arith))
  opt-Script (suc i) zero p q =
      let (x, gx, take_a) = take-suc a i p in
      extend drop i 0 (suc i) 0 _ _ (x ∷ []) [] take_a refl refl
        (omega (arith, opt_left a b i, opt_left a b (suc i))) (opt-Script i zero (omega arith) q)
  opt-Script (suc i) (suc j) p q =
      let (x, gx, take_a) = take-suc a i p in
      let (y, gy, take_b) = take-suc b j q in
      let diagonal = opt-Script i j (omega arith) (omega arith) in
      let above = opt-Script i (suc j) (omega arith) q in
      let left = opt-Script (suc i) j p (omega arith) in
      elim (Bool-cases (same_at a b i j)) [
        | inl same ↦
            let x=y : x ≡ y = same_get a b i j x y gx gy same in
            extend keep i j (suc i) (suc j) _ _ (x ∷ []) (y ∷ []) take_a take_b (rw x=y)
              (omega (arith, opt_same a b i j same)) diagonal
        | inr other ↦
            let value = opt_other a b i j other in
            elim (min_cases (opt a b (suc i) j) (opt a b i (suc j)) (opt a b i j)) [
              | inl e ↦
                  extend (add y) (suc i) j (suc i) (suc j) _ _ [] (y ∷ []) (sym (append-nil _))
                    take_b refl (omega (arith, value)) left
              | inr (inl e) ↦
                  extend drop i (suc j) (suc i) (suc j) _ _ (x ∷ []) [] take_a (sym (append-nil _))
                    refl (omega (arith, value)) above
              | inr (inr e) ↦
                  extend (swap y) i j (suc i) (suc j) _ _ (x ∷ []) (y ∷ []) take_a take_b refl
                    (omega (arith, value)) diagonal
            ]
      ]

  distance-Script :
      (e : List Edit) × (apply e a ≡ some b) × (cost e ≡ opt a b (length a) (length b))
  distance-Script =
      let (e, ran, c) = opt-Script (length a) (length b) (omega arith) (omega arith) in
      (e, rw (take_all a, take_all b) at ran, c)

-- Both tests of the cut-off agree with the difference of the lengths.
cut_off :
    (s : SpellChecker) (a b : Text)
    → (ltb s.max_typo (length a - length b) || ltb s.max_typo (length b - length a)) ≡ true
    → s.max_typo < opt a b (length a) (length b)
cut_off s a b h = ground (arith, opt-ge-sub a b (length a) (length b))

-- The result is the recurrence's value, or `maxTypo + 1` where that value is larger.
distance_value :
    (s : SpellChecker) (a b : Text)
    → (d : ℕ) × (levenshtein_distance s a b ≡ some d)
      × ((d ≡ opt a b (length a) (length b))
          ⊎ ((d ≡ s.max_typo + 1) × (s.max_typo < opt a b (length a) (length b))))
unfolding levenshtein_distance
distance_value s a b =
    elim (Bool-cases
      (ltb s.max_typo (length a - length b) || ltb s.max_typo (length b - length a))) [
        | inl far ↦ (s.max_typo + 1, rw far, inr (refl, cut_off s a b far))
        | inr near ↦
            let (dp, run, last) = fill_table-last a b in
            (opt a b (length a) (length b), rw (near, run) last, inl refl)
      ]

-- The distance is always computed (no index is out of range), no edit script that turns the first
-- word into the second costs less, and a distance within `maxTypo` is the cost of such a script.
pub levenshtein_distance_least :
    (s : SpellChecker) (a b : Text)
    → (d : ℕ) × (levenshtein_distance s a b ≡ some d)
      × ((e : List Edit) → apply e a ≡ some b → d ≤ cost e)
      × (d ≤ s.max_typo → (e : List Edit) × (apply e a ≡ some b) × (cost e ≡ d))
levenshtein_distance_least s a b =
    let (d, run, value) = distance_value s a b in
    (
      d,
      run,
      λ e h. omega (arith, opt-least a b e h),
      λ small. let (e, ran, costs) = distance-Script a b in (e, ran, omega arith),
    )
