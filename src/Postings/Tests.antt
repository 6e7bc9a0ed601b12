-- ===== src/Postings/Tests.antt =====
-- Postings in the store in memory. The JSON of the tests is the row of the numbers.
use monocle.Prelude.{ℕ, ◌≡◌, refl, ap, none, some, List, [], ◌∷◌, if◌then◌else◌, arith}
use monocle.Prelude.Assoc.{lookup}
use monocle.Prelude.Text.{Text, codes, eqb}
use monocle.Prelude.Hex.{hex}
use monocle.Store.{Failure}
use monocle.Store.Memory.{Memory, memory, empty, memory-IsStore, memory-IsReliable}
use monocle.Store.Gather.{then_value}
use monocle.Proximity.{Position}
use monocle.Indexer.{positions_of}
use monocle.Postings.{
  Posting, Json, word_key, cut_positions, is_too_long, index_document_words, get_documents_by_word,
}
use monocle.Postings.Keys.{posting_key}
use monocle.Postings.Stored.{IsJson}
use monocle.Postings.RoundTrip.{posted_or, get_documents_by_word-index_document_words}
use monocle.Postings.Underscore.{get_documents_by_word-error}

abbrev print_positions : List Position → Text
print_positions [] = []
print_positions (p ∷ ps) = p.i ∷ p.kind ∷ print_positions ps

abbrev read_positions : Text → List Position
read_positions [] = []
read_positions (i ∷ []) = []
read_positions (i ∷ kind ∷ rest) = record { i = i; kind = kind } ∷ read_positions rest

abbrev json : Json
json = record {
  marshal = λ p. some (p.count ∷ print_positions p.positions);
  unmarshal = λ body. elim body [
    | [] ↦ none
    | count ∷ rest ↦ some (record { count = count; positions = read_positions rest })
  ];
}

read_print : (ps : List Position) → read_positions (print_positions ps) ≡ ps
read_print [] = refl
read_print (p ∷ ps) = ap (◌∷◌ p) (read_print ps)

json-IsJson : IsJson json
json-IsJson = record {
  print = λ p. p.count ∷ print_positions p.positions;
  prints = λ p. refl;
  reads =
      λ p. ap (λ ps. some (record { count = p.count; positions = ps })) (read_print p.positions);
}

abbrev id : Text
id = codes "0123456789abcdef0123456789abcdef"

abbrev pos : List (Text × List Position)
pos = (codes "cat", record { i = 3; kind = b'b' } ∷ []) ∷ []

abbrev entries : List (Text × ℕ)
entries = (codes "cat", 1) ∷ (codes "dog", 0) ∷ []

get_documents_by_word-index_document_words_example :
    (after : Memory) × (out : List (Text × Posting)) × (index_document_words Memory memory json id
        pos entries empty
      ≡ (after, none))
    × (get_documents_by_word Memory memory json (codes "cat") after ≡ (out, none))
    × ((i : Text)
        → lookup i out ≡ (
            if eqb id i
            then posted_or Memory memory json memory-IsStore memory-IsReliable json-IsJson id pos
                (codes "cat")
                (lookup (codes "cat") entries)
                (then_value json.unmarshal (memory.get (posting_key (codes "cat") i) empty) none)
            else then_value json.unmarshal (memory.get (posting_key (codes "cat") i) empty) none))
unfolding lookup eqb json-IsJson
get_documents_by_word-index_document_words_example =
    get_documents_by_word-index_document_words Memory memory json memory-IsStore memory-IsReliable
      json-IsJson id pos (codes "cat") entries empty (refl, omega arith) (omega arith)
      (omega arith, (omega arith, tt)) (refl, (refl, tt))
      (unfold is_too_long cut_positions positions_of in (refl, (refl, tt)))
      (λ rest value h. absurd cc)

-- An e-mail address with an underscore in it.
abbrev address : Text
address = codes "cat_1@b.io"

abbrev full : Memory
full = record { entries = (word_key address id, 1 ∷ []) ∷ []; unique = (unfold lookup in refl, tt) }

get_documents_by_word-error_example :
    (e : Failure) × ((get_documents_by_word Memory memory json (codes "cat") full).1 ≡ some e)
unfolding lookup eqb word_key hex
get_documents_by_word-error_example =
    get_documents_by_word-error Memory memory json memory-IsStore (codes "cat") (codes "1@b.io") id
      (1 ∷ []) full refl
