-- ===== src/Postings/Keys.antt =====
-- The keys of the postings determine the word and the document.
use monocle.Prelude.{
  ℕ, ◌+◌, ◌-◌, ◌/◌, ◌%◌, ◌≡◌, ◌≢◌, refl, sym, ◌∙◌, ap, true, false, Bool-cases, inl, inr, [], ◌∷◌,
  ◌++◌, append_assoc, arith, All, ltb, if◌then◌else◌,
}
use monocle.Prelude.Text.{Text, codes, eqb, eqb_iff, eqb-append}
use monocle.Prelude.Hex.{hex}
use monocle.Postings.{word_prefix, word_key}

-- A word without an underscore.
abbrev pub IsPlain : Text → Type 0
IsPlain = All (λ c. c ≢ b'_')

-- The key with a word's prefix for some id.
abbrev pub posting_key : Text → Text → Text
posting_key word id = word_prefix word ++ hex id

pub word_key-posting_key : (word id : Text) → word_key word id ≡ posting_key word id
unfolding word_key word_prefix
word_key-posting_key word id =
    ap (λ s. codes "ri:" ++ s) (sym (append_assoc word (b'_' ∷ []) (hex id)))

hex_digits_same :
    (a b : ℕ)
    → (if ltb a 10 then b'0' + a else b'a' + (a - 10))
      ≡ (if ltb b 10 then b'0' + b else b'a' + (b - 10))
    → a ≡ b
hex_digits_same a b h = ground (arith, h)

head_or : ℕ → Text → ℕ
head_or n [] = n
head_or n (c ∷ s) = c

tail : Text → Text
tail [] = []
tail (c ∷ s) = s

pub hex_injective : (a b : Text) → hex a ≡ hex b → a ≡ b
unfolding hex head_or tail
hex_injective [] [] h = refl
hex_injective [] (y ∷ b) h = absurd cc
hex_injective (x ∷ a) [] h = absurd cc
hex_injective (x ∷ a) (y ∷ b) h =
    let hi = hex_digits_same (x / 16) (y / 16) (ap (head_or 0) h) in
    let lo = hex_digits_same (x % 16) (y % 16) (ap (λ s. head_or 0 (tail s)) h) in
    let rest = hex_injective a b (ap (λ s. tail (tail s)) h) in
    let x=y : x ≡ y = omega (arith, hi, lo) in cc

pub eqb-hex : (a b : Text) → eqb (hex a) (hex b) ≡ eqb a b
eqb-hex a b = elim (Bool-cases (eqb a b)) [
  | inl same ↦ (eqb_iff (hex a) (hex b)).1 (ap hex ((eqb_iff a b).0 same)) ∙ sym same
  | inr other ↦ elim (Bool-cases (eqb (hex a) (hex b))) [
    | inr differ ↦ differ ∙ sym other
    | inl equal ↦
        let e : eqb a b ≡ true =
          (eqb_iff a b).1 (hex_injective a b ((eqb_iff (hex a) (hex b)).0 equal)) in
        absurd cc
  ]
]

eqb-plain :
    (v w r s : Text)
    → IsPlain v
    → IsPlain w
    → eqb (v ++ (b'_' ∷ r)) (w ++ (b'_' ∷ s)) ≡ (if eqb v w then eqb r s else false)
unfolding eqb
eqb-plain [] [] r s p q = ground arith
eqb-plain [] (y ∷ w) r s p (q, h) = ground (arith, q)
eqb-plain (x ∷ v) [] r s (p, h) q = ground (arith, p)
eqb-plain (x ∷ v) (y ∷ w) r s (p, hp) (q, hq) = ground (arith, eqb-plain v w r s hp hq)

-- The key of one plain word lies behind the prefix of another only if they are the same.
pub eqb-word_key :
    (v w id rest : Text)
    → IsPlain v
    → IsPlain w
    → eqb (word_key v id) (word_prefix w ++ rest) ≡ (if eqb v w then eqb (hex id) rest else false)
unfolding word_key word_prefix
eqb-word_key v w id rest p q =
    ap (λ s. eqb (codes "ri:" ++ (v ++ (b'_' ∷ hex id))) (codes "ri:" ++ s))
      (append_assoc w (b'_' ∷ []) rest)
    ∙ eqb-append (codes "ri:") (v ++ (b'_' ∷ hex id)) (w ++ (b'_' ∷ rest))
    ∙ eqb-plain v w (hex id) rest p q
