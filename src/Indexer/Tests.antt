-- ===== src/Indexer/Tests.antt =====
-- The index of a small document.
use monocle.Prelude.{◌≡◌, refl, ltb, if◌then◌else◌, length, none, some, List, [], ◌∷◌, map, arith}
use monocle.Prelude.Text.{Text, codes, eqb}
use monocle.Prelude.Assoc.{lookup, insert}
use monocle.Prelude.Suffix.{has_suffix, trim_suffix, bytes, utf8}
use monocle.Prelude.Unicode.{ascii, lower}
use monocle.Tokenizer.{
  TokenType, Token, EntityRule, rune_type, scan, fragment_tokenize, slice, matches, potential,
  before, insert_sorted, sort_stable, select, gap, weave, entity_tokenize,
}
use monocle.Tokenizer.Fragment.{spelled}
use monocle.Stemmer.{
  Visit, step1a_rules, step1b_rules, step2_rules, step3_rules, step4_rules, contains, is_stop_word,
  ends_in, measure_from, measure, apply_first, measured, steps, stem,
}
use monocle.Proximity.Bound.{IsSorted}
use monocle.Indexer.{
  Passage, Counters, no_words, new_position, stem_token, stem_tokens, tokenize_and_stem, count_of,
  positions_of, record_word, count_token, count_tokens, count_passages,
}
use monocle.Indexer.Places.{Sequence, Counts}
use monocle.Indexer.Passages.{Words, count_passages-Counts}
use monocle.Indexer.Aligned.{counted_words, IsAligned, tokenize_and_stem-IsAligned}

program : Unit {0}
unfolding eqb has_suffix trim_suffix bytes utf8 contains is_stop_word ends_in measure_from measure
    apply_first measured steps stem rune_type scan fragment_tokenize slice matches potential before
    insert_sorted sort_stable select gap weave entity_tokenize lookup insert new_position stem_token
    stem_tokens tokenize_and_stem count_of positions_of record_word count_token count_tokens
    count_passages
program = tt

abbrev in_order : Visit
in_order = record {
  step1a = step1a_rules;
  step1b = step1b_rules;
  step2 = step2_rules;
  step3 = step3_rules;
  step4 = step4_rules;
}

abbrev heading : Text
heading = codes "Ask a@b.io"

abbrev body : Text
body = codes "the ponies ask 12 ponies"

abbrev passages : List Passage
passages = record { text = heading; kind = b'h' } ∷ record { text = body; kind = b'b' } ∷ []

-- An expression that finds an address in the heading.
abbrev rules : List EntityRule
rules =
    record {
      find_all = λ s. if ltb (length s) 11 then (4, 10) ∷ [] else [];
      token_type = TokenType.email_addr;
      priority = 2;
    }
    ∷ []

tokenize_and_stem-IsAligned_example :
    (tokens : List Token) × (stems : List Token) × (entity_tokenize ascii rules heading
      ≡ some tokens)
    × (lower ascii (spelled tokens) ≡ lower ascii heading)
    × (tokenize_and_stem ascii rules (λ j. in_order) heading
        ≡ some (counted_words ascii tokens, stems))
    × IsAligned ascii (λ j. in_order) 0 tokens stems
tokenize_and_stem-IsAligned_example =
    tokenize_and_stem-IsAligned ascii rules (λ j. in_order) heading (λ c. ground arith)
      (omega arith)

counted_ponies :
    map
      (λ p. p.i)
      (elim (count_passages ascii rules (λ k j. in_order) 0 passages [] no_words) [
        | none ↦ []
        | some (words, d) ↦ positions_of (codes "poni") d.pos
      ])
    ≡ 2 ∷ 4 ∷ []
unfolding program
counted_ponies = refl

count_passages-Counts_example :
    (s : Sequence) × Words ascii rules (λ k j. in_order) 0 passages s
    × (words : List Text) × (d : Counters) × (count_passages ascii rules
          (λ k j. in_order)
          0
          passages
          []
          no_words
        ≡ some (words, d))
    × Counts s d
    × ((w : Text) → IsSorted (positions_of w d.pos))
count_passages-Counts_example =
    count_passages-Counts ascii rules (λ k j. in_order) passages (λ c. ground arith)
      ((refl, omega arith), ((refl, omega arith), tt))
