-- ===== src/Stemmer.antt =====
-- internal/app/indexer/textHandling/stemmer.go: `EnglishStemmer`, its rules and stop words.
-- Go visits a map in any order, another one each time: the order is an argument.
pub mod Order
pub mod Shrink
pub mod Measure
mod Tests
use Prim.Native.String.{String}
use monocle.Prelude.{
  ℕ, suc, ◌+◌, ◌≤◌, ltb, leb, ◌==◌, if◌then◌else◌, Bool, true, false, not, ◌&&◌, ◌||◌, List, [],
  ◌∷◌, ◌++◌, Option, none, some, map,
}
use mathlib.Core.List.{Perm}
use monocle.Prelude.Text.{Text, codes, eqb}
use monocle.Prelude.Suffix.{has_suffix, trim_suffix, bytes, byte_length}
use monocle.Prelude.Unicode.{Unicode, lower}

-- A suffix and its replacement.
abbrev pub Rule : Type 0
Rule = Text × Text

abbrev rule : String → String → Rule
rule s t = (codes s, codes t)

-- `NewEnglishStemmer`
abbrev pub step1a_rules : List Rule
step1a_rules = rule "sses" "ss" ∷ rule "ies" "i" ∷ rule "ss" "ss" ∷ rule "s" "" ∷ []

abbrev pub step1b_rules : List Rule
step1b_rules = rule "eed" "ee" ∷ rule "ed" "" ∷ rule "ing" "" ∷ []

abbrev pub step2_rules : List Rule
step2_rules =
    rule "ational" "ate"
    ∷ rule "tional" "tion"
    ∷ rule "enci" "ence"
    ∷ rule "anci" "ance"
    ∷ rule "izer" "ize"
    ∷ rule "abli" "able"
    ∷ rule "alli" "al"
    ∷ rule "entli" "ent"
    ∷ rule "eli" "e"
    ∷ rule "ousli" "ous"
    ∷ rule "ization" "ize"
    ∷ rule "ation" "ate"
    ∷ rule "ator" "ate"
    ∷ rule "alism" "al"
    ∷ rule "iveness" "ive"
    ∷ rule "fulness" "ful"
    ∷ rule "ousness" "ous"
    ∷ rule "aliti" "al"
    ∷ rule "iviti" "ive"
    ∷ rule "biliti" "ble"
    ∷ []

abbrev pub step3_rules : List Rule
step3_rules =
    rule "icate" "ic"
    ∷ rule "ative" ""
    ∷ rule "alize" "al"
    ∷ rule "iciti" "ic"
    ∷ rule "ical" "ic"
    ∷ rule "ful" ""
    ∷ rule "ness" ""
    ∷ []

abbrev pub step4_rules : List Rule
step4_rules =
    rule "al" ""
    ∷ rule "ance" ""
    ∷ rule "ence" ""
    ∷ rule "er" ""
    ∷ rule "ic" ""
    ∷ rule "able" ""
    ∷ rule "ible" ""
    ∷ rule "ant" ""
    ∷ rule "ement" ""
    ∷ rule "ment" ""
    ∷ rule "ent" ""
    ∷ rule "ion" ""
    ∷ rule "ou" ""
    ∷ rule "ism" ""
    ∷ rule "ate" ""
    ∷ rule "iti" ""
    ∷ rule "ous" ""
    ∷ rule "ive" ""
    ∷ rule "ize" ""
    ∷ []

-- `newStopWords`
abbrev pub english_stops : List Text
english_stops = map codes (
    "a" ∷ "an" ∷ "and" ∷ "are" ∷ "as" ∷ "at" ∷ "be" ∷ "by" ∷ "for" ∷ "from" ∷ "has" ∷ "he" ∷ "in"
    ∷ "is" ∷ "it" ∷ "its" ∷ "of" ∷ "on" ∷ "that" ∷ "the" ∷ "to" ∷ "was" ∷ "were" ∷ "will" ∷ "with"
    ∷ "the" ∷ "this" ∷ "but" ∷ "they" ∷ "have" ∷ "had" ∷ "what" ∷ "when" ∷ "where" ∷ "who" ∷ "which"
    ∷ "why" ∷ "how" ∷ "all" ∷ "any" ∷ "both" ∷ "each" ∷ "few" ∷ "more" ∷ "most" ∷ "other" ∷ "some"
    ∷ "such" ∷ "no" ∷ "nor" ∷ "not" ∷ "only" ∷ "own" ∷ "same" ∷ "so" ∷ "than" ∷ "too" ∷ "very" ∷ [])

unfoldable pub contains : List Text → Text → Bool
contains [] w = false
contains (x ∷ xs) w = eqb x w || contains xs w

unfoldable pub is_stop_word : Unicode → Text → Bool
is_stop_word u word = contains english_stops (lower u word)

-- `(*EnglishStemmer).hasSuffix`
unfoldable pub ends_in : Text → Text → Bool
ends_in word suffix = ltb (byte_length suffix) (byte_length word) && has_suffix word suffix

abbrev pub is_vowel : ℕ → Bool
is_vowel c = c == b'a' || c == b'e' || c == b'i' || c == b'o' || c == b'u'

-- The loop of `measure` over the bytes of the word, from its two variables.
unfoldable pub measure_from : ℕ → Bool → List ℕ → ℕ
measure_from m has_vowel [] = m
measure_from m has_vowel (c ∷ cs) = elim (is_vowel c) [
  | true ↦ measure_from m true cs
  | false ↦ elim has_vowel [
    | true ↦ measure_from (m + 1) false cs
    | false ↦ measure_from m false cs
  ]
]

unfoldable pub measure : Text → ℕ
measure word = measure_from 0 false (bytes word)

-- The orders in which one call of `stem` visits the maps.
pub record Visit : Type 0 where
  pub step1a : List Rule
  pub step1b : List Rule
  pub step2 : List Rule
  pub step3 : List Rule
  pub step4 : List Rule

pub record IsVisit (v : Visit) : Type 0 where
  pub step1a : Perm v.step1a step1a_rules
  pub step1b : Perm v.step1b step1b_rules
  pub step2 : Perm v.step2 step2_rules
  pub step3 : Perm v.step3 step3_rules
  pub step4 : Perm v.step4 step4_rules

-- A loop over the rules of a step: the first that the test takes is applied.
unfoldable pub apply_first : (Text → Text → Bool) → List Rule → Text → Text
apply_first takes [] word = word
apply_first takes ((suffix, replacement) ∷ rules) word =
    if takes word suffix
    then trim_suffix word suffix ++ replacement
    else apply_first takes rules word

-- The test of the later steps.
unfoldable pub measured : ℕ → Text → Text → Bool
measured least word suffix = ends_in word suffix && ltb least (measure (trim_suffix word suffix))

unfoldable pub steps : Visit → Text → Text
steps v word =
    let w1 = apply_first ends_in v.step1a word in
    let w2 = apply_first (measured 0) v.step1b w1 in
    let w3 = apply_first (measured 0) v.step2 w2 in
    let w4 = apply_first (measured 0) v.step3 w3 in apply_first (measured 1) v.step4 w4

unfoldable pub stem : Unicode → Visit → Text → Text
stem u v word =
    if is_stop_word u word then [] else if leb (byte_length word) 2 then word else steps v word
