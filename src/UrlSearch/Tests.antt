-- ===== src/UrlSearch/Tests.antt =====
-- The search on concrete words and URLs.
use monocle.Prelude.{ℕ, ◌+◌, ◌≡◌, refl, ltb, true, false, [], ◌∷◌, some, arith}
use monocle.Prelude.Text.{Text, codes}
use monocle.Prelude.Suffix.{utf8}
use monocle.UrlSearch.{
  fill_shift, shift_of, match_back, shift_by, round, scan_url, find_word, count_words, boyer_moore,
}
use monocle.UrlSearch.Sound.{Occurs}
use monocle.UrlSearch.Counted.{Counted, boyer_moore-Counted}
use monocle.UrlSearch.Missed.{find_word_misses}

abbrev go : Text
go = codes "go"

abbrev site : Text
site = codes "golang"

both : boyer_moore site (codes "lang" ∷ (go ∷ [])) ≡ some (true, 7)
unfolding boyer_moore count_words find_word scan_url round shift_by shift_of fill_shift utf8
    match_back
both = refl

boyer_moore-Counted_example :
    (m : ℕ) × (boyer_moore site (codes "lang" ∷ (go ∷ [])) ≡ some (ltb 0 m, 1 + m))
    × Counted site (codes "lang" ∷ (go ∷ [])) m
boyer_moore-Counted_example =
    boyer_moore-Counted site (codes "lang" ∷ (go ∷ [])) (omega arith, (omega arith, tt))

aba_stands : Occurs (codes "aba") (codes "xbaba")
aba_stands = (codes "xb", [], refl)

find_word_misses_example : find_word (codes "aba") (codes "xbaba") ≡ some false
find_word_misses_example =
    find_word_misses 97 120 (codes "ba") (codes "ba") (λ e. absurd (omega (arith, e))) (omega arith)
      (omega arith)
