-- ===== src/SpellChecker/Replacement.antt =====
-- `BestReplacement`: the first candidate within `maxTypo` edits, or the word itself.
use monocle.Prelude.{
  ℕ, ◌<◌, ◌≡◌, refl, ap, Option, some, List, [], ◌∷◌, ◌++◌, ◌⊎◌, inl, inr, true, false, leb,
  if◌then◌else◌, last?, last?-append, arith, Bool-cases, All,
}
use monocle.Prelude.Text.{Text}
use monocle.SpellChecker.{
  SpellChecker, Token, levenshtein_distance, pushes, settle, choose, best_replacement,
}
use monocle.SpellChecker.Script.{Within}
use monocle.SpellChecker.Distance.{levenshtein_distance_least}

module _ (s : SpellChecker) (s1 : Text) where
  abbrev pub IsNear : Text → Type 0
  IsNear c = Within s.max_typo s1 c

  abbrev pub IsFar : Text → Type 0
  IsFar c = ¬ IsNear c

  -- `r` is the first of the candidates that is near, or `s1` where none is.
  abbrev pub IsFirstNear : List Text → Text → Type 0
  IsFirstNear cs r =
      ((before : List Text) × (after : List Text) × (cs ≡ before ++ r ∷ after)
        × IsNear r
        × All IsFar before)
      ⊎ ((r ≡ s1) × All IsFar cs)

  -- The test of the loop decides whether a candidate is near.
  distance-IsNear :
      (c : Text)
      → (d : ℕ) × (levenshtein_distance s s1 c ≡ some d)
        × (leb d s.max_typo ≡ true → IsNear c)
        × (leb d s.max_typo ≡ false → IsFar c)
  distance-IsNear c =
      let (d, run, least, script) = levenshtein_distance_least s s1 c in
      (
        d,
        run,
        λ h. let (e, ran, costs) = script (ground arith) in (e, ran, ground arith),
        λ h near. let (e, ran, cheap) = near in ground (arith, least e ran),
      )

  -- The token on top of the stack is too far.
  abbrev TopIsFar : List Token → Type 0
  TopIsFar st = (top : Token) × (last? st ≡ some top) × (s.max_typo < top.score)

  no_push : (st : List Token) (d : ℕ) → (st ≡ []) ⊎ TopIsFar st → pushes st d ≡ false → TopIsFar st
  unfolding pushes
  no_push st d (inl e) p = ground arith
  no_push st d (inr f) p = f

  push_far :
      (st : List Token) (c : Text) (d : ℕ)
      → (st ≡ []) ⊎ TopIsFar st
      → leb d s.max_typo ≡ false
      → TopIsFar (if pushes st d then st ++ record { s = c; score = d } ∷ [] else st)
  push_far st c d h far = elim (Bool-cases (pushes st d)) [
    | inl p ↦ rw p (record { s = c; score = d }, last?-append st _, ground arith)
    | inr p ↦ rw p (no_push st d h p)
  ]

  abbrev Outcome : List Text → Option Text → Type 0
  Outcome cs o = (r : Text) × (o ≡ some r) × IsFirstNear cs r

  -- Behind a candidate that is too far.
  further :
      (c : Text) (cs : List Text) {o : Option Text} → IsFar c → Outcome cs o → Outcome (c ∷ cs) o
  further c cs far (r, ran, inl (before, after, e, near, all_far)) =
      (r, ran, inl (c ∷ before, after, ap (◌∷◌ c) e, near, (far, all_far)))
  further c cs far (r, ran, inr (e, all_far)) = (r, ran, inr (e, (far, all_far)))

  choose_round :
      (c : Text) (cs : List Text) (st : List Token)
      → (st ≡ []) ⊎ TopIsFar st
      → ((st' : List Token) → TopIsFar st' → Outcome cs (choose s s1 cs st'))
      → Outcome (c ∷ cs) (choose s s1 (c ∷ cs) st)
  unfolding choose
  choose_round c cs st h rest =
      let (d, run, near, far) = distance-IsNear c in
      elim (Bool-cases (leb d s.max_typo)) [
        | inl p ↦ (c, rw (run, p), inl ([], cs, refl, near p, tt))
        | inr p ↦ rw (run, p) (further c cs (far p) (rest _ (push_far st c d h p)))
      ]

  choose_far : (cs : List Text) (st : List Token) → TopIsFar st → Outcome cs (choose s s1 cs st)
  choose_far [] st (top, last, far) = (s1, unfold choose settle in ground arith, inr (refl, tt))
  choose_far (c ∷ cs) st h = choose_round c cs st (inr h) (choose_far cs)

-- `BestReplacement` never indexes an empty slice. It returns the first candidate that an edit script
-- of cost at most `maxTypo` reaches, or the word itself where no candidate is reached.
pub best_replacement_first :
    (s : SpellChecker) (s1 : Text) (cs : List Text)
    → (r : Text) × (best_replacement s s1 cs ≡ some r) × IsFirstNear s s1 cs r
unfolding best_replacement
best_replacement_first s s1 [] = (s1, refl, inr (refl, tt))
best_replacement_first s s1 (c ∷ cs) = choose_round s s1 c cs [] (inl refl) (choose_far s s1 cs)
