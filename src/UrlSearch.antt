-- ===== src/UrlSearch.antt =====
-- internal/app/searcher/preprocessingFeatures.go: `boyerMoorAlgorithm`.
-- Texts are runes. `pos` and `spos` stand one behind the source's `strp` and `sstrp`, which reach -1.
-- `none` is an index out of range, or a loop that has used up its fuel.
pub mod Sound
pub mod Counted
pub mod Missed
mod Tests
use monocle.Prelude.{
  ℕ, zero, suc, ◌+◌, ◌-◌, ◌*◌, max, ltb, leb, ◌==◌, if◌then◌else◌, Bool, true, false, List, [], ◌∷◌,
  Option, none, some, length, get_elem?,
}
use monocle.Prelude.Maybe.{◌>>=◌}
use monocle.Prelude.Text.{Text}
use monocle.Prelude.Suffix.{utf8}

-- `map[rune]int`
abbrev pub ShiftMap : Type 0
ShiftMap = ℕ → Option ℕ

-- The loop that fills `shift`: `i` counts bytes, `l` runes.
unfoldable pub fill_shift : ℕ → ℕ → Text → ShiftMap → ShiftMap
fill_shift l i [] shift = shift
fill_shift l i (r ∷ word) shift =
    fill_shift l (i + length (utf8 r)) word
      (λ c. if c == r then some (max 1 (l - i - 1)) else shift c)

unfoldable pub shift_of : Text → ShiftMap
shift_of word = fill_shift (length word) 0 word (λ c. none)

-- The variables `tmp`, `sstrp` and `strp` of the inner loop.
pub record Back : Type 0 where
  pub tmp : ℕ
  pub spos : ℕ
  pub pos : ℕ

module _ (query_word url : Text) where
  -- The inner loop, on `sstrp + 1`.
  unfoldable pub match_back : ℕ → ℕ → ℕ → Option Back
  match_back tmp zero pos = some (record { tmp = tmp; spos = 0; pos = pos })
  match_back tmp (suc s) pos =
      let stop = some (record { tmp = tmp; spos = suc s; pos = pos }) in
      let on = match_back (tmp + 1) s (pos - 1) in
      do w ← get_elem? query_word s; c ← get_elem? url (pos - 1); if w == c then on else stop

  -- Where a mismatch at the word's end moves `strp`.
  unfoldable pub shift_by : ℕ → ℕ
  shift_by c = elim (shift_of query_word c) [ some sh ↦ sh | none ↦ length query_word ]

  -- What a round does at `strp + 1`: it ends with a match, or moves on.
  unfoldable pub round : ℕ → Option (Option ℕ)
  round pos = do
    w ← get_elem? query_word (length query_word - 1)
    c ← get_elem? url (pos - 1)
    if w == c
        then (do
          back ← match_back (length query_word) (length query_word) pos
          some (if back.spos == 0 then none else some (back.pos + back.tmp)))
        else some (some (pos + shift_by c))

  -- The outer loop from `strp + 1`; `true` is the `break` on a match.
  unfoldable pub scan_url : ℕ → ℕ → Option Bool
  scan_url zero pos = none
  scan_url (suc fuel) pos = elim (leb pos (length url)) [
    | false ↦ some false
    | true ↦ elim (round pos) [
      | none ↦ none
      | some none ↦ some true
      | some (some next) ↦ scan_url fuel next
    ]
  ]

  -- One word: every round moves `strp` forward, so the length of the URL bounds the rounds.
  unfoldable pub find_word : Option Bool
  find_word = scan_url (suc (length url)) (length query_word)

-- The loop over the words, from `wordInUrl`.
unfoldable pub count_words : Text → ℕ → List Text → Option ℕ
count_words url word_in_url [] = some word_in_url
count_words url word_in_url (word ∷ words) = do
  hit ← find_word word url
  count_words url (if hit then word_in_url + length word else word_in_url) words

-- The flag, and the argument of the logarithm.
unfoldable pub boyer_moore : Text → List Text → Option (Bool × ℕ)
boyer_moore url query_words = do
  word_in_url ← count_words url 0 query_words
  some (ltb 0 word_in_url, 1 + word_in_url)
