-- ===== src/UrlSearch/Missed.antt =====
-- What the search misses: after a mismatch it moves by the word's length and the matched runes from the start of the
-- mismatch, so alignments between are never tried.
use monocle.Prelude.{
  ℕ, zero, suc, ◌+◌, ◌-◌, ◌≤◌, ◌<◌, ◌≡◌, ◌≢◌, refl, ◌∙◌, ap, false, [], ◌∷◌, ◌++◌, some, length,
  get_elem?, arith, length-append, drop-get_elem?,
}
use monocle.Prelude.Text.{Text}
use monocle.UrlSearch.{match_back, round, find_word}
use monocle.UrlSearch.Sound.{
  match_back_stop, match_back_on, round_same, scan_url_next, scan_url_past,
}

get_elem-append :
    (xs ys : Text) (i w : ℕ) → get_elem? xs i ≡ some w → get_elem? (xs ++ ys) i ≡ some w
get_elem-append [] ys i w h = absurd cc
get_elem-append (x ∷ xs) ys zero w h = h
get_elem-append (x ∷ xs) ys (suc i) w h = get_elem-append xs ys i w h

module _ (a x : ℕ) (t rest : Text) (x≢a : x ≢ a) where
  -- The word's first rune is all that differs from the URL's start.
  match_back_lem :
      (k tmp : ℕ)
      → k ≤ length t
      → match_back (a ∷ t) (x ∷ (t ++ rest)) tmp (suc k) (suc k)
        ≡ some (record { tmp = tmp + k; spos = 1; pos = 1 })
  match_back_lem zero tmp h =
      match_back_stop (a ∷ t) (x ∷ (t ++ rest)) tmp 0 1 a x refl refl (ground arith)
      ∙ ap (λ n. some (record { tmp = n; spos = 1; pos = 1 })) (omega arith)
  match_back_lem (suc k) tmp h =
      let (w, at, _) = drop-get_elem? t k (omega arith) in
      let back-one : suc (suc k) - 1 ≡ suc k = omega arith in
      match_back_on (a ∷ t) (x ∷ (t ++ rest)) tmp (suc k) (suc (suc k)) w w at
        (ap (get_elem? (x ∷ (t ++ rest))) back-one ∙ get_elem-append t rest k w at) (ground arith)
      ∙ ap (match_back (a ∷ t) (x ∷ (t ++ rest)) (tmp + 1) (suc k)) back-one
      ∙ match_back_lem k (tmp + 1) (omega arith)
      ∙ ap (λ n. some (record { tmp = n; spos = 1; pos = 1 })) (omega arith)

  round_lem :
      0 < length t
      → round (a ∷ t) (x ∷ (t ++ rest)) (suc (length t))
        ≡ some (some (1 + (suc (length t) + length t)))
  round_lem n =
      let (w, at, _) = drop-get_elem? t (length t - 1) (omega arith) in
      let one-back : suc (length t) - 1 ≡ suc (length t - 1) = omega arith in
      round_same (a ∷ t) (x ∷ (t ++ rest)) (suc (length t)) w w
        (record { tmp = suc (length t) + length t; spos = 1; pos = 1 })
        (ap (get_elem? (a ∷ t)) one-back ∙ at)
        (ap (get_elem? (x ∷ (t ++ rest))) one-back ∙ get_elem-append t rest (length t - 1) w at)
        (ground arith) (match_back_lem (length t) (suc (length t)) (omega arith))

  -- Where a URL starts with another rune, then all runes of a word but the first, and is shorter than two words, the
  -- search finds nothing, whatever follows.
  pub find_word_misses :
      0 < length t → length rest < suc (length t) → find_word (a ∷ t) (x ∷ (t ++ rest)) ≡ some false
  unfolding find_word
  find_word_misses n m =
      let fuel = length (t ++ rest) in
      scan_url_next (a ∷ t) (x ∷ (t ++ rest)) (suc fuel) (suc (length t))
        (1 + (suc (length t) + length t)) (ground (arith, length-append t rest)) (round_lem n)
      ∙ scan_url_past (a ∷ t) (x ∷ (t ++ rest)) fuel (1 + (suc (length t) + length t))
          (ground (arith, length-append t rest))
