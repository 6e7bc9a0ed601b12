-- ===== src/UrlSearch/Counted.antt =====
-- The count over all words.
use monocle.Prelude.{
  ℕ, ◌+◌, ◌<◌, ◌≡◌, ◌∙◌, ap, inl, inr, ltb, Bool, true, false, List, [], ◌∷◌, some, length, All,
  arith, if◌then◌else◌,
}
use monocle.Prelude.Text.{Text}
use monocle.UrlSearch.{find_word, count_words, boyer_moore}
use monocle.UrlSearch.Sound.{Occurs, find_word-Occurs}

module _ (url : Text) where
  -- `n` runes in the words that are found, each of which stands in the URL.
  pub data Counted : List Text → ℕ → Type 0 where
    done : Counted [] 0
    missed :
        {word : Text} {words : List Text} {n : ℕ}
        → find_word word url ≡ some false
        → Counted words n
        → Counted (word ∷ words) n
    found :
        {word : Text} {words : List Text} {n : ℕ}
        → Occurs word url
        → Counted words n
        → Counted (word ∷ words) (length word + n)

  abbrev pub IsWord : Text → Type 0
  IsWord word = 0 < length word

  count_words_step :
      (n : ℕ) (word : Text) (words : List Text) (hit : Bool)
      → find_word word url ≡ some hit
      → count_words url n (word ∷ words)
        ≡ count_words url (if hit then n + length word else n) words
  unfolding count_words
  count_words_step n word words hit h = ground arith

  count_words_lem :
      (n : ℕ) (words : List Text)
      → All IsWord words
      → (m : ℕ) × (count_words url n words ≡ some (n + m)) × Counted words m
  count_words_lem n [] h = (0, unfold count_words in ap some (omega arith), done)
  count_words_lem n (word ∷ words) (p, h) = elim (find_word-Occurs word url p) [
    | inl run ↦
        let (m, more, counted) = count_words_lem n words h in
        (m, count_words_step n word words false run ∙ more, missed run counted)
    | inr (run, here) ↦
        let (m, more, counted) = count_words_lem (n + length word) words h in
        (
          length word + m,
          count_words_step n word words true run ∙ more ∙ ap some (omega arith),
          found here counted,
        )
  ]

  boyer_moore_run :
      (words : List Text) (m : ℕ)
      → count_words url 0 words ≡ some m
      → boyer_moore url words ≡ some (ltb 0 m, 1 + m)
  unfolding boyer_moore
  boyer_moore_run words m h = rw h

  -- On words that are not empty the search ends, and its count is the number of runes of words that it found and that
  -- stand in the URL; the flag says whether this is more than 0.
  pub boyer_moore-Counted :
      (words : List Text)
      → All IsWord words
      → (m : ℕ) × (boyer_moore url words ≡ some (ltb 0 m, 1 + m)) × Counted words m
  boyer_moore-Counted words h =
      let (m, run, counted) = count_words_lem 0 words h in
      (m, boyer_moore_run words m (run ∙ ap some (omega arith)), counted)
