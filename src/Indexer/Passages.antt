-- ===== src/Indexer/Passages.antt =====
-- The index of a whole document: `HandleDocumentWords` counts the words of its passages one after the other.
use monocle.Prelude.{
  ℕ, suc, ◌≡◌, refl, sym, ◌∙◌, List, [], ◌∷◌, ◌++◌, some, All, arith, append_assoc, append-nil,
}
use mathlib.Core.Path.{subst}
use monocle.Prelude.Assoc.{lookup}
use monocle.Prelude.Text.{Text}
use monocle.Prelude.Unicode.{Unicode}
use monocle.Tokenizer.{Token, EntityRule}
use monocle.Tokenizer.Cover.{IsInBounds, entity_tokenize_covers}
use monocle.Stemmer.{Visit}
use monocle.Proximity.Bound.{IsSorted}
use monocle.Indexer.{
  Passage, Counters, no_words, count_of, positions_of, stem_tokens, tokenize_and_stem, count_tokens,
  count_passages,
}
use monocle.Indexer.Places.{Sequence, Counts, kept, IsKnown, count_tokens_lem}
use monocle.Indexer.Sorted.{places-IsSorted}

module _ (u : Unicode) (rules : List EntityRule) (visit : ℕ → ℕ → Visit) where
  -- The counted words of the passages, in their order.
  pub data Words : ℕ → List Passage → Sequence → Type 0 where
    done : {k : ℕ} → Words k [] []
    next :
        {k : ℕ} {passages : List Passage} {s : Sequence} (p : Passage) (orig : List Text)
        (stemmed : List Token)
        → tokenize_and_stem u rules (visit k) p.text ≡ some (orig, stemmed)
        → Words (suc k) passages s
        → Words k (p ∷ passages) (kept p.kind stemmed ++ s)

  -- A passage of a known kind in which every match lies inside.
  abbrev pub IsReadable : Passage → Type 0
  IsReadable p = IsKnown p.kind × All (IsInBounds p.text) rules

  tokenized :
      ((c : ℕ) → u.to_lower (u.to_lower c) ≡ u.to_lower c)
      → (k : ℕ) (p : Passage) → IsReadable p
      → (orig : List Text) × (stemmed : List Token) × (tokenize_and_stem u rules (visit k) p.text
          ≡ some (orig, stemmed))
  unfolding tokenize_and_stem
  tokenized fixed k p (_, h) =
      let (tokens, run, _) = entity_tokenize_covers u rules p.text fixed h in
      ((stem_tokens u (visit k) 0 tokens).0, (stem_tokens u (visit k) 0 tokens).1, rw run)

  Counted : ℕ → List Passage → List Text → Sequence → Counters → Type 0
  Counted k passages all_tokens t c =
      (s : Sequence) × Words k passages s
      × (words : List Text) × (d : Counters) × (count_passages u rules visit k passages all_tokens c
          ≡ some (words, d))
      × Counts (t ++ s) d

  empty_step :
      (k : ℕ) (p : Passage) (passages : List Passage) (all_tokens orig : List Text) (c : Counters)
      → tokenize_and_stem u rules (visit k) p.text ≡ some (orig, [])
      → count_passages u rules visit k (p ∷ passages) all_tokens c
        ≡ count_passages u rules visit (suc k) passages all_tokens c
  unfolding count_passages
  empty_step k p passages all_tokens orig c h = ground arith

  passage_step :
      (k : ℕ) (p : Passage) (passages : List Passage) (all_tokens orig : List Text) (w : Token)
      (stemmed : List Token) (c d : Counters)
      → tokenize_and_stem u rules (visit k) p.text ≡ some (orig, w ∷ stemmed)
      → count_tokens p.kind (w ∷ stemmed) c ≡ some d
      → count_passages u rules visit k (p ∷ passages) all_tokens c
        ≡ count_passages u rules visit (suc k) passages (all_tokens ++ orig) d
  unfolding count_passages
  passage_step k p passages all_tokens orig w stemmed c d h r = ground arith

  -- One more passage, by what it is split into.
  one_more :
      (k : ℕ) (p : Passage) (passages : List Passage) (all_tokens orig : List Text)
      (stemmed : List Token) (t : Sequence) (c : Counters)
      → IsKnown p.kind
      → Counts t c
      → tokenize_and_stem u rules (visit k) p.text ≡ some (orig, stemmed)
      → ((all : List Text) (t' : Sequence) (d : Counters)
          → Counts t' d
          → Counted (suc k) passages all t' d)
      → Counted k (p ∷ passages) all_tokens t c
  unfolding Counted
  one_more k p passages all_tokens orig [] t c known h split go =
      let (s, w, words, d, run, h') = go all_tokens t c h in
      (
        s,
        next p orig [] split w,
        words,
        d,
        empty_step k p passages all_tokens orig c split ∙ run,
        h',
      )
  one_more k p passages all_tokens orig (x ∷ stemmed) t c known h split go =
      let (e, counted, he) = count_tokens_lem p.kind (x ∷ stemmed) t c known h in
      let (s, w, words, d, run, h') =
        go (all_tokens ++ orig) (t ++ kept p.kind (x ∷ stemmed)) e he in
      (
        kept p.kind (x ∷ stemmed) ++ s,
        next p orig (x ∷ stemmed) split w,
        words,
        d,
        passage_step k p passages all_tokens orig x stemmed c e split counted ∙ run,
        subst (λ r. Counts r d) (append_assoc t (kept p.kind (x ∷ stemmed)) s) h',
      )

  count_passages_lem :
      ((c : ℕ) → u.to_lower (u.to_lower c) ≡ u.to_lower c)
      → (k : ℕ) (passages : List Passage) (all_tokens : List Text) (t : Sequence) (c : Counters)
      → All IsReadable passages
      → Counts t c
      → Counted k passages all_tokens t c
  unfolding Counted
  count_passages_lem fixed k [] all_tokens t c h counts = (
    [],
    done,
    all_tokens,
    c,
    unfold count_passages in refl,
    subst (λ r. Counts r c) (sym (append-nil t)) counts,
  )
  count_passages_lem fixed k (p ∷ passages) all_tokens t c (h, hs) counts =
      let (orig, stemmed, split) = tokenized fixed k p h in
      one_more k p passages all_tokens orig stemmed t c h.0 counts split
        (λ all t' d h'. count_passages_lem fixed (suc k) passages all t' d hs h')

no_words-Counts : Counts [] no_words
unfolding count_of positions_of lookup
no_words-Counts = record { i = refl; pos = λ w. refl; stem = λ w. refl }

-- Where every match lies in its passage and every passage is of a known kind, HandleDocumentWords counts the words of
-- a document without a panic, for every visiting order of the stemmer's rules: the word count is the number of counted
-- tokens, and each word is listed at exactly the places where it stands among them, in ascending order, with its number
-- of places as its frequency. (Lower-casing is assumed to leave lower-cased runes alone.)
pub count_passages-Counts :
    (u : Unicode) (rules : List EntityRule) (visit : ℕ → ℕ → Visit) (passages : List Passage)
    → ((c : ℕ) → u.to_lower (u.to_lower c) ≡ u.to_lower c)
    → All (IsReadable u rules visit) passages
    → (s : Sequence) × Words u rules visit 0 passages s
      × (words : List Text) × (d : Counters) × (count_passages u rules visit 0 passages [] no_words
          ≡ some (words, d))
      × Counts s d
      × ((w : Text) → IsSorted (positions_of w d.pos))
unfolding Counted
count_passages-Counts u rules visit passages fixed h =
    let (s, w, words, d, run, counts) =
      count_passages_lem u rules visit fixed 0 passages [] [] no_words h no_words-Counts in
    (s, w, words, d, run, counts, λ v. subst IsSorted (sym (counts.pos v)) (places-IsSorted v 0 s))
