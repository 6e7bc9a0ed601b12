-- ===== src/Indexer/Aligned.antt =====
-- The two results of `TokenizeAndStem` against the tokens of its text.
use monocle.Prelude.{
  ℕ, suc, ◌≡◌, ◌≢◌, refl, ◌∙◌, ltb, ltb→lt, ◌&&◌, not, Bool, true, false, List, [], ◌∷◌, some, All,
  Bool-cases, inl, inr, if◌then◌else◌, arith, ap,
}
use monocle.Prelude.Text.{Text}
use monocle.Prelude.Suffix.{byte_length}
use monocle.Prelude.Unicode.{Unicode, lower}
use monocle.Tokenizer.{TokenType, Token, EntityRule, same_type, entity_tokenize}
use monocle.Tokenizer.Cover.{IsInBounds, entity_tokenize_covers}
use monocle.Tokenizer.Fragment.{spelled}
use monocle.Stemmer.{Visit, stem, is_stop_word}
use monocle.Stemmer.Shrink.{stem-eq-nil_iff}
use monocle.Indexer.{is_term, stemmed_word, stem_token, stem_tokens, tokenize_and_stem}

-- A token of type WORD that is not empty and no stop word.
abbrev pub is_counted : Unicode → Token → Bool
is_counted u t =
    (same_type t.type TokenType.word && ltb 0 (byte_length t.value)) && not (is_stop_word u t.value)

abbrev pub counted_words : Unicode → List Token → List Text
counted_words u [] = []
counted_words u (t ∷ tokens) =
    if is_counted u t then t.value ∷ counted_words u tokens else counted_words u tokens

-- From token `j` on, each counted token gives its stem with the rules in the order `visit j`, which is not empty, each
-- number, alphanumeric, e-mail address and URL gives itself, and nothing else gives a token.
pub data IsAligned (u : Unicode) (visit : ℕ → Visit) : ℕ → List Token → List Token → Type 0 where
  nil : {j : ℕ} → IsAligned u visit j [] []
  stemmed :
      {j : ℕ} {tokens stems : List Token} (t : Token)
      → is_counted u t ≡ true
      → stem u (visit j) t.value ≢ []
      → IsAligned u visit (suc j) tokens stems
      → IsAligned u visit j (t ∷ tokens) (stemmed_word (stem u (visit j) t.value) ∷ stems)
  term :
      {j : ℕ} {tokens stems : List Token} (t : Token)
      → is_term t.type ≡ true
      → IsAligned u visit (suc j) tokens stems
      → IsAligned u visit j (t ∷ tokens) (t ∷ stems)
  left_out :
      {j : ℕ} {tokens stems : List Token} (t : Token)
      → is_counted u t ≡ false
      → is_term t.type ≡ false
      → IsAligned u visit (suc j) tokens stems
      → IsAligned u visit j (t ∷ tokens) stems

term_lem : (t : TokenType) → is_term t ≡ true → same_type t TokenType.word ≡ false
term_lem t h = ground (arith, h)

split_lem : (a b c : Bool) → (a && b) && not c ≡ true → ((a && b) ≡ true) × (b ≡ true) × (c ≡ false)
split_lem a b c h = (ground (arith, h), ground (arith, h), ground (arith, h))

module _ (u : Unicode) (v : Visit) (t : Token) where
  -- What `stem_token` does with a stem that is empty, and with one that is not.
  abbrev from_stem : Text → List Text × List Token
  from_stem s = elim s [ [] ↦ ([], []) | c ∷ r ↦ (t.value ∷ [], stemmed_word (c ∷ r) ∷ []) ]

  of_word :
      (same_type t.type TokenType.word && ltb 0 (byte_length t.value)) ≡ true
      → stem_token u v t ≡ from_stem (stem u v t.value)
  unfolding stem_token
  of_word h = rw h refl

  of_stem : (s : Text) → s ≢ [] → from_stem s ≡ (t.value ∷ [], stemmed_word s ∷ [])
  of_stem [] h = absurd (h refl)
  of_stem (c ∷ r) h = refl

  stem_counted :
      is_counted u t ≡ true
      → (stem_token u v t ≡ (t.value ∷ [], stemmed_word (stem u v t.value) ∷ []))
        × (stem u v t.value ≢ [])
  stem_counted h =
      let (word, long, going) = split_lem _ _ _ h in
      let iff = stem-eq-nil_iff u v t.value (ltb→lt 0 (byte_length t.value) long) in
      let filled : stem u v t.value ≢ [] = λ e. ground (arith, going, iff.0 e) in
      (of_word word ∙ of_stem (stem u v t.value) filled, filled)

  stem_term : is_term t.type ≡ true → (is_counted u t ≡ false) × (stem_token u v t ≡ ([], t ∷ []))
  unfolding stem_token
  stem_term h = let other = term_lem t.type h in (rw other refl, rw (stem_token, other, h) refl)

  stem_left_out : is_counted u t ≡ false → is_term t.type ≡ false → stem_token u v t ≡ ([], [])
  unfolding stem_token
  stem_left_out h h' =
      elim (Bool-cases (same_type t.type TokenType.word && ltb 0 (byte_length t.value))) [
        | inr other ↦ rw (stem_token, other, h') refl
        | inl word ↦
            let long : ltb 0 (byte_length t.value) ≡ true = ground (arith, word) in
            let stop : is_stop_word u t.value ≡ true = ground (arith, h, word) in
            of_word word
            ∙ ap from_stem
                ((stem-eq-nil_iff u v t.value (ltb→lt 0 (byte_length t.value) long)).1 stop)
      ]

-- The words, and the other tokens, that are left of a list of tokens.
abbrev AreAligned : Unicode → (ℕ → Visit) → ℕ → List Token → List Text × List Token → Type 0
AreAligned u visit j tokens result =
    (result.0 ≡ counted_words u tokens) × IsAligned u visit j tokens result.1

stem_tokens-AreAligned :
    (u : Unicode) (visit : ℕ → Visit) (j : ℕ) (tokens : List Token)
    → AreAligned u visit j tokens (stem_tokens u visit j tokens)
unfolding stem_tokens
stem_tokens-AreAligned u visit j [] = (refl, nil)
stem_tokens-AreAligned u visit j (t ∷ tokens) =
    let (same, rest) = stem_tokens-AreAligned u visit (suc j) tokens in
    elim (Bool-cases (is_counted u t)) [
      | inl counted ↦
          let (run, filled) = stem_counted u (visit j) t counted in
          rw (run, counted) (ap (◌∷◌ t.value) same, stemmed t counted filled rest)
      | inr other ↦ elim (Bool-cases (is_term t.type)) [
        | inl is ↦ rw ((stem_term u (visit j) t is).1, other) (same, term t is rest)
        | inr isnt ↦
            rw (stem_left_out u (visit j) t other isnt, other) (same, left_out t other isnt rest)
      ]
    ]

-- Where every match lies in the text, TokenizeAndStem slices nowhere out of range. With the tokens that entityTokenize
-- gives, which spell the text up to case: its words are, in order and for every visiting order of the stemmer's rules,
-- the tokens of type WORD that are not empty and no stop words; its tokens are, in order, the stems of these words
-- with the rules in the order of their token, none of them empty, and between them the numbers, alphanumerics, e-mail
-- addresses and URLs. (Lower-casing is assumed to leave lower-cased runes alone.)
pub tokenize_and_stem-IsAligned :
    (u : Unicode) (rules : List EntityRule) (visit : ℕ → Visit) (text : Text)
    → ((c : ℕ) → u.to_lower (u.to_lower c) ≡ u.to_lower c)
    → All (IsInBounds text) rules
    → (tokens : List Token) × (stems : List Token) × (entity_tokenize u rules text ≡ some tokens)
      × (lower u (spelled tokens) ≡ lower u text)
      × (tokenize_and_stem u rules visit text ≡ some (counted_words u tokens, stems))
      × IsAligned u visit 0 tokens stems
unfolding tokenize_and_stem
tokenize_and_stem-IsAligned u rules visit text fixed h =
    let (tokens, run, spells) = entity_tokenize_covers u rules text fixed h in
    let (same, stems) = stem_tokens-AreAligned u visit 0 tokens in
    (
      tokens,
      (stem_tokens u visit 0 tokens).1,
      run,
      spells,
      rw run (ap (λ ws. some (ws, (stem_tokens u visit 0 tokens).1)) same),
      stems,
    )
