-- ===== src/Stemmer/Measure.antt =====
-- What `measure` counts.
use monocle.Prelude.{
  ℕ, ◌+◌, ◌*◌, ◌≤◌, ◌≡◌, refl, ◌∙◌, inl, inr, if◌then◌else◌, not, ◌&&◌, List, [], ◌∷◌, length,
  arith, Bool-cases,
}
use monocle.Prelude.Text.{Text}
use monocle.Prelude.Suffix.{bytes, byte_length}
use monocle.Stemmer.{is_vowel, measure_from, measure}

-- The places where a byte that is no vowel stands right behind a vowel.
pub turns : List ℕ → ℕ
turns [] = 0
turns (a ∷ []) = 0
turns (a ∷ b ∷ cs) = (if is_vowel a && not (is_vowel b) then 1 else 0) + turns (b ∷ cs)

-- The count behind a byte `a` that was a vowel or not.
measure_from-turns : (m a : ℕ) (cs : List ℕ) → measure_from m (is_vowel a) cs ≡ m + turns (a ∷ cs)
unfolding measure_from turns
measure_from-turns m a [] = omega arith
measure_from-turns m a (b ∷ cs) = elim (Bool-cases (is_vowel b)) [
  | inl vowel ↦ ground (arith, measure_from-turns m b cs)
  | inr other ↦ ground (arith, measure_from-turns m b cs, measure_from-turns (m + 1) b cs)
]

-- A word begins as if a consonant stood before it.
measure-turns_behind : (word : Text) → measure word ≡ turns (b'b' ∷ bytes word)
unfolding measure
measure-turns_behind word = omega (arith, measure_from-turns 0 b'b' (bytes word))

turns_consonant : (cs : List ℕ) → turns (b'b' ∷ cs) ≡ turns cs
unfolding turns
turns_consonant [] = refl
turns_consonant (c ∷ cs) = omega arith

turns-le : (a : ℕ) (cs : List ℕ) → 2 * turns (a ∷ cs) ≤ length cs + (if is_vowel a then 1 else 0)
unfolding turns
turns-le a [] = omega arith
turns-le a (b ∷ cs) = ground (arith, turns-le b cs)

-- `measure` is the number of places in the word where a vowel is followed by a byte that is no
-- vowel, and is at most half of the word's length in bytes.
pub measure-turns :
    (word : Text) → (measure word ≡ turns (bytes word)) × (2 * measure word ≤ byte_length word)
measure-turns word =
    let e = measure-turns_behind word ∙ turns_consonant (bytes word) in
    (e, omega (arith, measure-turns_behind word, turns-le b'b' (bytes word)))
