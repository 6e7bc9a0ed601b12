-- ===== src/NGrams/Keys.antt =====
-- The keys of the chunks: no two chunks share one.
use monocle.Prelude.{
  ℕ, zero, suc, ◌-◌, ◌/◌, ◌≡◌, ◌≢◌, refl, sym, ◌∙◌, ap, ltb, Bool-cases, inl, inr, some, [], ◌∷◌,
  ◌++◌, drop, length, All, All-append, All-split, arith,
}
use mathlib.Core.Path.{subst}
use monocle.Prelude.Text.{Text, codes, append_cancel}
use monocle.Prelude.Decimal.{digits, scan_digits, scan_digits-digits}
use monocle.NGrams.{zeros, chunk_key}

abbrev IsColonFree : Text → Type 0
IsColonFree = All (λ c. c ≢ b':')

digits-IsColonFree : (fuel n : ℕ) → IsColonFree (digits fuel n)
unfolding digits
digits-IsColonFree zero n = tt
digits-IsColonFree (suc fuel) n = elim (Bool-cases (ltb n 10)) [
  | inl small ↦ rw (digits, small) ((λ e. ground (arith, small, e)), tt)
  | inr big ↦
      rw (digits, big)
        (All-append (λ c. c ≢ b':') (digits fuel (n / 10)) _ (digits-IsColonFree fuel (n / 10))
          ((λ e. omega (arith, e)), tt))
]

zeros-IsColonFree : (k : ℕ) → IsColonFree (zeros k)
unfolding zeros
zeros-IsColonFree zero = tt
zeros-IsColonFree (suc k) = ((λ e. omega (arith, e)), zeros-IsColonFree k)

scan_digits-zeros : (k : ℕ) (s : Text) → scan_digits 0 (zeros k ++ s) ≡ scan_digits 0 s
unfolding zeros scan_digits
scan_digits-zeros zero s = refl
scan_digits-zeros (suc k) s = scan_digits-zeros k s

-- "%04d"
abbrev padded : ℕ → Text
padded id = zeros (4 - length (digits (suc id) id)) ++ digits (suc id) id

padded-IsColonFree : (id : ℕ) → IsColonFree (padded id)
padded-IsColonFree id =
    All-append (λ c. c ≢ b':') (zeros _) (digits (suc id) id) (zeros-IsColonFree _)
      (digits-IsColonFree (suc id) id)

scan_digits-padded : (id : ℕ) → scan_digits 0 (padded id) ≡ some id
scan_digits-padded id =
    scan_digits-zeros _ (digits (suc id) id) ∙ scan_digits-digits (suc id) id (omega arith)

-- What stands behind the last colon, and what stands before it.
last_colon :
    (a b s t : Text)
    → IsColonFree s
    → IsColonFree t
    → a ++ b':' ∷ s ≡ b ++ b':' ∷ t
    → (a ≡ b) × (s ≡ t)
last_colon [] [] s t hs ht e = (refl, ap (drop 1) e)
last_colon [] (y ∷ b) s t hs ht e =
    absurd ((All-split (λ c. c ≢ b':') b t b':' (subst IsColonFree (ap (drop 1) e) hs)).1 refl)
last_colon (x ∷ a) [] s t hs ht e =
    absurd
      ((All-split (λ c. c ≢ b':') a s b':' (subst IsColonFree (sym (ap (drop 1) e)) ht)).1 refl)
last_colon (x ∷ a) (y ∷ b) s t hs ht e =
    let (same, same') = last_colon a b s t hs ht (ap (drop 1) e) in (ground (arith, e, same), same')

pub chunk_key_injective : (a b : Text) (i j : ℕ) → chunk_key a i ≡ chunk_key b j → (a ≡ b) × (i ≡ j)
unfolding chunk_key
chunk_key_injective a b i j e =
    let (same, number) =
      last_colon a b (padded i) (padded j) (padded-IsColonFree i) (padded-IsColonFree j)
        (append_cancel (codes "ng:") _ _ e) in
    (
      same,
      ground (arith, sym (scan_digits-padded i) ∙ ap (scan_digits 0) number ∙ scan_digits-padded j),
    )
