-- ===== src/NGrams/Windows.antt =====
-- extractNGrams: every window of the word, once.
use monocle.Prelude.{
  ℕ, zero, suc, ◌+◌, ◌-◌, ◌≤◌, ◌<◌, ◌≡◌, ◌↔◌, inl, inr, refl, sym, ◌∙◌, ap, ltb, true, false, List,
  [], ◌∷◌, length, take, drop, arith, Bool-cases,
}
use mathlib.Core.Path.{subst}
use monocle.Prelude.Text.{Text, eqb, eqb_iff, eqb_refl}
use monocle.Prelude.Unicode.{Unicode, lower}
use monocle.NGrams.{is_in, windows, extract_n_grams}

-- No text stands twice in the list.
abbrev pub IsDistinct : List Text → Type 0
IsDistinct [] = Unit
IsDistinct (x ∷ xs) = (is_in x xs ≡ false) × IsDistinct xs

module _ (n : ℕ) (runes : Text) where
  abbrev window : ℕ → Text
  window j = take n (drop j runes)

  -- What the rounds from `i` on give, beside the texts of `al_in`.
  record Collects (k i : ℕ) (al_in out : List Text) : Type 0 where
    sound : (g : Text) → is_in g out ≡ true → (j : ℕ) × (i ≤ j) × (j < i + k) × (g ≡ window j)
    fresh : (g : Text) → is_in g al_in ≡ true → is_in g out ≡ false
    complete :
        (j : ℕ) → i ≤ j → j < i + k → is_in (window j) al_in ≡ false → is_in (window j) out ≡ true
    distinct : IsDistinct out

  windows_seen :
      (k i : ℕ) (al_in : List Text)
      → is_in (window i) al_in ≡ true
      → windows n (suc k) i runes al_in ≡ windows n k (suc i) runes al_in
  unfolding windows
  windows_seen k i al_in h = ground arith

  windows_new :
      (k i : ℕ) (al_in : List Text)
      → is_in (window i) al_in ≡ false
      → windows n (suc k) i runes al_in ≡ window i ∷ windows n k (suc i) runes (window i ∷ al_in)
  unfolding windows
  windows_new k i al_in h = ground arith

  Collects-seen :
      (k i : ℕ) (al_in out : List Text)
      → is_in (window i) al_in ≡ true
      → Collects k (suc i) al_in out
      → Collects (suc k) i al_in out
  Collects-seen k i al_in out seen c = record {
    sound = λ g h. let (j, a, b, e) = c.sound g h in (j, omega (arith, a), omega (arith, b), e);
    fresh = c.fresh;
    complete = λ j a b h. elim (Bool-cases (ltb i j)) [
      | inl on ↦ c.complete j (ground (arith, on)) (omega (arith, b)) h
      | inr at ↦
          let j=i : j ≡ i = ground (arith, at) in
          let e : is_in (window j) al_in ≡ is_in (window i) al_in =
            ap (λ m. is_in (window m) al_in) j=i in
          absurd cc
    ];
    distinct = c.distinct;
  }

  is_in_here : (x g : Text) (l : List Text) → eqb x g ≡ true → is_in g (x ∷ l) ≡ true
  unfolding is_in
  is_in_here x g l h = rw h

  is_in_later : (x g : Text) (l : List Text) → eqb x g ≡ false → is_in g (x ∷ l) ≡ is_in g l
  unfolding is_in
  is_in_later x g l h = rw h

  is_in_cons : (x g : Text) (l : List Text) → is_in g l ≡ true → is_in g (x ∷ l) ≡ true
  is_in_cons x g l h = elim (Bool-cases (eqb x g)) [
    | inl same ↦ is_in_here x g l same
    | inr other ↦ is_in_later x g l other ∙ h
  ]

  Collects-new :
      (k i : ℕ) (al_in out : List Text)
      → is_in (window i) al_in ≡ false
      → Collects k (suc i) (window i ∷ al_in) out
      → Collects (suc k) i al_in (window i ∷ out)
  Collects-new k i al_in out new c = record {
    sound = λ g h. elim (Bool-cases (eqb (window i) g)) [
      | inl same ↦ (i, omega arith, omega arith, sym ((eqb_iff (window i) g).0 same))
      | inr other ↦
          let (j, a, b, e) = c.sound g (sym (is_in_later (window i) g out other) ∙ h) in
          (j, omega (arith, a), omega (arith, b), e)
    ];
    fresh = λ g h. elim (Bool-cases (eqb (window i) g)) [
      | inl same ↦
          let e : is_in (window i) al_in ≡ is_in g al_in =
            ap (λ x. is_in x al_in) ((eqb_iff (window i) g).0 same) in
          absurd cc
      | inr other ↦ is_in_later (window i) g out other ∙ c.fresh g (is_in_cons (window i) g al_in h)
    ];
    complete = λ j a b h. elim (Bool-cases (eqb (window i) (window j))) [
      | inl same ↦ is_in_here (window i) (window j) out same
      | inr other ↦ elim (Bool-cases (ltb i j)) [
        | inl on ↦
            is_in_later (window i) (window j) out other
            ∙ c.complete j (ground (arith, on)) (omega (arith, b))
                (is_in_later (window i) (window j) al_in other ∙ h)
        | inr at ↦
            let i=j : i ≡ j = ground (arith, at) in
            let e : eqb (window i) (window j) ≡ true =
              (eqb_iff (window i) (window j)).1 (ap window i=j) in
            absurd cc
      ]
    ];
    distinct = (
      c.fresh (window i) (is_in_here (window i) (window i) al_in (eqb_refl (window i))),
      c.distinct,
    );
  }

  windows_lem : (k i : ℕ) (al_in : List Text) → Collects k i al_in (windows n k i runes al_in)
  windows_lem zero i al_in =
      unfold windows is_in in
      record {
        sound = λ g h. absurd cc;
        fresh = λ g h. refl;
        complete = λ j a b h. absurd (omega (arith, a, b));
        distinct = tt;
      }
  windows_lem (suc k) i al_in = elim (Bool-cases (is_in (window i) al_in)) [
    | inl seen ↦
        subst (Collects (suc k) i al_in) (sym (windows_seen k i al_in seen))
          (Collects-seen k i al_in _ seen (windows_lem k (suc i) al_in))
    | inr new ↦
        subst (Collects (suc k) i al_in) (sym (windows_new k i al_in new))
          (Collects-new k i al_in _ new (windows_lem k (suc i) (window i ∷ al_in)))
  ]

-- extractNGrams gives no text twice; it gives the windows of `n` runes of the lower-cased word, and only these.
pub extract_n_grams-IsDistinct :
    (u : Unicode) (word : Text) (n : ℕ)
    → IsDistinct (extract_n_grams u word n)
      × ((g : Text)
          → (is_in g (extract_n_grams u word n) ≡ true)
            ↔ ((j : ℕ) × (j + n ≤ length (lower u word)) × (g ≡ take n (drop j (lower u word)))))
unfolding extract_n_grams
extract_n_grams-IsDistinct u word n = elim (Bool-cases (ltb (length (lower u word)) n)) [
  | inl short ↦
      rw short
        (tt, λ g. (λ h. unfold is_in in absurd cc, λ (j, a, e). absurd (ground (arith, short, a))))
  | inr long ↦
      let c = windows_lem n (lower u word) (length (lower u word) - n + 1) 0 [] in
      rw long (
        c.distinct,
        λ g. (
          λ h. let (j, _, b, e) = c.sound g h in (j, ground (arith, b, long), e),
          λ (j, a, e).
              ap (λ x. is_in x (windows n (length (lower u word) - n + 1) 0 (lower u word) [])) e
              ∙ c.complete j (omega arith) (omega (arith, a)) (unfold is_in in refl),
        ),
      )
]
