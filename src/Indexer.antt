-- ===== src/Indexer.antt =====
-- internal/app/indexer/wordHandling.go: `HandleDocumentWords`; `TokenizeAndStem` of
-- internal/app/indexer/textHandling/stemmer.go and `NewTypeTextObj` of internal/model/document.go.
-- Logging is left out. `none` is a panic.
pub mod Places
pub mod Sorted
pub mod Passages
pub mod Aligned
mod Tests
use monocle.Prelude.{
  ℕ, zero, suc, ◌+◌, ltb, ◌==◌, if◌then◌else◌, Bool, true, false, not, ◌&&◌, ◌||◌, List, [], ◌∷◌,
  ◌++◌, Option, none, some, length,
}
use monocle.Prelude.Maybe.{◌>>=◌}
use monocle.Prelude.Assoc.{lookup, insert}
use monocle.Prelude.Text.{Text}
use monocle.Prelude.Suffix.{byte_length}
use monocle.Prelude.Unicode.{Unicode}
use monocle.Tokenizer.{TokenType, Token, EntityRule, same_type, entity_tokenize}
use monocle.Stemmer.{Visit, stem}
use monocle.Proximity.{Position}

-- `Passage`
pub record Passage : Type 0 where
  pub text : Text
  pub kind : ℕ

-- `NewTypeTextObj[Position]`
unfoldable pub new_position : ℕ → ℕ → Option Position
new_position t i =
    if t == b'b' || t == b'h' || t == b'q' then some (record { i = i; kind = t }) else none

-- The test of the second branch of `TokenizeAndStem`.
abbrev pub is_term : TokenType → Bool
is_term t =
    same_type t TokenType.alphanumeric
    || same_type t TokenType.number
    || same_type t TokenType.email_addr
    || same_type t TokenType.url_addr

-- The token that stands for a stemmed word.
abbrev pub stemmed_word : Text → Token
stemmed_word s = record { type = TokenType.word; value = s; start_pos = 0; end_pos = 0 }

-- One token: what it adds to `wordTokens` and to `stemmedTokens`.
unfoldable pub stem_token : Unicode → Visit → Token → List Text × List Token
stem_token u v t =
    if same_type t.type TokenType.word && ltb 0 (byte_length t.value)
    then (elim (stem u v t.value) [
      | [] ↦ ([], [])
      | c ∷ s ↦ (t.value ∷ [], stemmed_word (c ∷ s) ∷ [])
    ])
    else if is_term t.type
    then ([], t ∷ [])
    else ([], [])

-- The loop of `TokenizeAndStem`; token `j` is stemmed with the rules in the order `visit j`.
unfoldable pub stem_tokens : Unicode → (ℕ → Visit) → ℕ → List Token → List Text × List Token
stem_tokens u visit j [] = ([], [])
stem_tokens u visit j (t ∷ tokens) =
    let (ws, ts) = stem_token u (visit j) t in
    let (words, stemmed) = stem_tokens u visit (suc j) tokens in (ws ++ words, ts ++ stemmed)

unfoldable pub tokenize_and_stem :
    Unicode → List EntityRule → (ℕ → Visit) → Text → Option (List Text × List Token)
tokenize_and_stem u rules visit text = do
  tokens ← entity_tokenize u rules text
  some (stem_tokens u visit 0 tokens)

-- The variables `stem`, `pos` and `i`.
pub record Counters : Type 0 where
  pub stem : List (Text × ℕ)
  pub pos : List (Text × List Position)
  pub i : ℕ

abbrev pub no_words : Counters
no_words = record { stem = []; pos = []; i = 0 }

-- `stem[w]` and `pos[w]`, with Go's zero values.
unfoldable pub count_of : Text → List (Text × ℕ) → ℕ
count_of w m = elim (lookup w m) [ none ↦ 0 | some n ↦ n ]

unfoldable pub positions_of : Text → List (Text × List Position) → List Position
positions_of w m = elim (lookup w m) [ none ↦ [] | some ps ↦ ps ]

abbrev pub is_skipped : Token → Bool
is_skipped w = same_type w.type TokenType.number || ltb 64 (byte_length w.value)

-- One word at position `p`.
unfoldable pub record_word : Text → Position → Counters → Counters
record_word w p c = record {
  stem = insert w (suc (count_of w c.stem)) c.stem;
  pos = insert w (positions_of w c.pos ++ p ∷ []) c.pos;
  i = suc c.i;
}

unfoldable pub count_token : ℕ → Token → Counters → Option Counters
count_token kind w c =
    if is_skipped w then some c else (do p ← new_position kind c.i; some (record_word w.value p c))

unfoldable pub count_tokens : ℕ → List Token → Counters → Option Counters
count_tokens kind [] c = some c
count_tokens kind (w ∷ stemmed) c = do d ← count_token kind w c; count_tokens kind stemmed d

module _ (u : Unicode) (rules : List EntityRule) (visit : ℕ → ℕ → Visit) where
  -- The loop over the passages, from `allTokens`; in passage `k` the rules are visited in the orders `visit k`.
  unfoldable pub count_passages :
      ℕ → List Passage → List Text → Counters → Option (List Text × Counters)
  count_passages k [] all_tokens c = some (all_tokens, c)
  count_passages k (p ∷ passages) all_tokens c = elim (tokenize_and_stem u rules (visit k) p.text) [
    | none ↦ none
    | some (orig, []) ↦ count_passages (suc k) passages all_tokens c
    | some (orig, w ∷ stemmed) ↦ elim (count_tokens p.kind (w ∷ stemmed) c) [
      | none ↦ none
      | some d ↦ count_passages (suc k) passages (all_tokens ++ orig) d
    ]
  ]

-- `Document`; the vectors are any type.
pub record Document (V : Type 0) : Type 0 where
  pub id : Text
  pub url : Text
  pub word_count : ℕ
  pub word_vec : V

-- `doc.WordCount = i`
abbrev pub set_word_count : {V : Type 0} → ℕ → Document V → Document V
set_word_count i doc = record {
  id = doc.id;
  url = doc.url;
  word_count = i;
  word_vec = doc.word_vec;
}

-- What the indexer calls of its repository, with the error that a call returns.
pub record Repository (V R E : Type 0) : Type 0 where
  pub save_document : Document V → R → R × Option E
  pub index_n_grams : List Text → ℕ → R → R × Option E
  pub index_document_words : Text → List (Text × ℕ) → List (Text × List Position) → R → R × Option E

-- `if err := …; err != nil { return err }`
unfoldable pub unless_error : {R E : Type 0} → R × Option E → (R → R × Option E) → R × Option E
unless_error (r, none) next = next r
unless_error (r, some e) next = (r, some e)

-- The document, whose `WordCount` is set, the repository and the error returned.
unfoldable pub handle_document_words :
    {V R E : Type 0}
    → Repository V R E
    → Unicode
    → List EntityRule
    → (ℕ → ℕ → Visit)
    → ℕ
    → Document V
    → List Passage
    → R
    → Option (Document V × (R × Option E))
handle_document_words repository u rules visit n_gram_count doc passages r = do
  counted ← count_passages u rules visit 0 passages [] no_words
  let all_tokens = counted.0
  let c = counted.1
  let saved = set_word_count c.i doc
  some (
    saved,
    unless_error (repository.save_document saved r) (λ r1.
        unless_error (repository.index_n_grams all_tokens n_gram_count r1)
          (λ r2. repository.index_document_words doc.id c.stem c.pos r2)),
  )
