-- ===== src/UrlSearch/Sound.antt =====
-- The search ends, indexes nothing out of range, and what it finds is there.
use monocle.Prelude.{
  leb→le, ℕ, zero, suc, ◌+◌, ◌-◌, ◌≤◌, ◌<◌, ◌≡◌, refl, sym, ◌∙◌, ap, ◌⊎◌, inl, inr, leb, ◌==◌,
  ==_iff, Bool, true, false, [], ◌∷◌, ◌++◌, Option, none, some, length, get_elem?, take, drop,
  arith, Bool-cases, Option-cases, if◌then◌else◌, drop-get_elem?, take-append-drop,
}
use monocle.Prelude.Text.{Text}
use monocle.Prelude.Suffix.{utf8}
use monocle.UrlSearch.{
  ShiftMap, fill_shift, shift_of, Back, match_back, shift_by, round, scan_url, find_word,
}

-- The word stands somewhere in the URL.
abbrev pub Occurs : Text → Text → Type 0
Occurs word url = (before : Text) × (after : Text) × (url ≡ before ++ (word ++ after))

-- A shift moves forward.
IsForward : ShiftMap → Type 0
IsForward shift = (c sh : ℕ) → shift c ≡ some sh → 0 < sh

fill_shift-IsForward :
    (l i : ℕ) (w : Text) (s : ShiftMap) → IsForward s → IsForward (fill_shift l i w s)
unfolding IsForward fill_shift
fill_shift-IsForward l i [] s h = h
fill_shift-IsForward l i (r ∷ w) s h =
    fill_shift-IsForward l (i + length (utf8 r)) w _ (λ c sh e. ground (arith, h c sh))

shift_by_pos : (word url : Text) (c : ℕ) → 0 < length word → 0 < shift_by word url c
unfolding shift_by shift_of IsForward
shift_by_pos word url c h = elim (Option-cases (fill_shift (length word) 0 word (λ c. none) c)) [
  | inl missing ↦ ground arith
  | inr (sh, found) ↦ ground (
    arith,
    fill_shift-IsForward (length word) 0 word (λ c. none) (λ c sh e. ground arith) c sh found,
  )
]

module _ (word url : Text) where
  -- From `s` on the word stands at `pos` in the URL.
  abbrev pub Tail : ℕ → ℕ → Type 0
  Tail s pos = (rest : Text) × (drop pos url ≡ drop s word ++ rest)

  abbrev BackTo : ℕ → Option Back → Type 0
  BackTo sum o =
      (back : Back) × (o ≡ some back) × (back.pos + back.tmp ≡ sum) × Tail back.spos back.pos

  pub match_back_stop :
      (tmp s pos w c : ℕ)
      → get_elem? word s ≡ some w
      → get_elem? url (pos - 1) ≡ some c
      → (w == c) ≡ false
      → match_back word url tmp (suc s) pos ≡ some (record { tmp = tmp; spos = suc s; pos = pos })
  unfolding match_back
  match_back_stop tmp s pos w c p q h = ground arith

  pub match_back_on :
      (tmp s pos w c : ℕ)
      → get_elem? word s ≡ some w
      → get_elem? url (pos - 1) ≡ some c
      → (w == c) ≡ true
      → match_back word url tmp (suc s) pos ≡ match_back word url (tmp + 1) s (pos - 1)
  unfolding match_back
  match_back_on tmp s pos w c p q h = ground arith

  match_back_lem :
      (tmp s pos : ℕ)
      → s ≤ length word
      → s ≤ pos
      → pos ≤ length url
      → Tail s pos
      → BackTo (pos + tmp) (match_back word url tmp s pos)
  match_back_lem tmp zero pos p q r t =
      (record { tmp = tmp; spos = 0; pos = pos }, unfold match_back in refl, refl, t)
  match_back_lem tmp (suc s) pos p q r (rest, t) =
      let (w, gw, dw) = drop-get_elem? word s p in
      let (c, gc, dc) = drop-get_elem? url (pos - 1) (omega arith) in
      elim (Bool-cases (w == c)) [
        | inr other ↦ (
          record { tmp = tmp; spos = suc s; pos = pos },
          match_back_stop tmp s pos w c gw gc other,
          refl,
          (rest, t),
        )
        | inl same ↦
            let w=c : w ≡ c = (==_iff w c).0 same in
            let back-one : suc (pos - 1) ≡ pos = omega arith in
            let (back, run, sum, tail) =
              match_back_lem (tmp + 1) s (pos - 1) (omega arith) (omega arith) (omega arith) (
                rest,
                dc
                    ∙ ap (λ n. c ∷ drop n url) back-one
                    ∙ ap (λ x. c ∷ x) t
                    ∙ ap (λ d. d ∷ (drop (suc s) word ++ rest)) (sym w=c)
                    ∙ ap (λ x. x ++ rest) (sym dw),
              ) in
            (back, match_back_on tmp s pos w c gw gc same ∙ run, omega arith, tail)
      ]

  -- A round ends with an occurrence, or moves forward.
  abbrev Outcome : ℕ → Option ℕ → Type 0
  Outcome pos none = Occurs word url
  Outcome pos (some next) = pos < next

  drop_all : (xs : Text) → drop (length xs) xs ≡ []
  drop_all [] = refl
  drop_all (x ∷ xs) = drop_all xs

  pub round_same :
      (pos w c : ℕ) (back : Back)
      → get_elem? word (length word - 1) ≡ some w
      → get_elem? url (pos - 1) ≡ some c
      → (w == c) ≡ true
      → match_back word url (length word) (length word) pos ≡ some back
      → round word url pos ≡ some (if back.spos == 0 then none else some (back.pos + back.tmp))
  unfolding round
  round_same pos w c back p q h m = ground arith

  round_other :
      (pos w c : ℕ)
      → get_elem? word (length word - 1) ≡ some w
      → get_elem? url (pos - 1) ≡ some c
      → (w == c) ≡ false
      → round word url pos ≡ some (some (pos + shift_by word url c))
  unfolding round
  round_other pos w c p q h = ground arith

  found_here : (back : Back) → back.spos ≡ 0 → Tail back.spos back.pos → Occurs word url
  found_here back e (rest, t) = (
    take back.pos url,
    rest,
    sym (take-append-drop back.pos url)
        ∙ ap (λ x. take back.pos url ++ x) (t ∙ ap (λ n. drop n word ++ rest) e),
  )

  round_lem :
      (pos : ℕ)
      → 0 < length word
      → length word ≤ pos
      → pos ≤ length url
      → (o : Option ℕ) × (round word url pos ≡ some o) × Outcome pos o
  round_lem pos n p q =
      let (w, gw, _) = drop-get_elem? word (length word - 1) (omega arith) in
      let (c, gc, _) = drop-get_elem? url (pos - 1) (omega arith) in
      let (back, run, sum, tail) =
        match_back_lem (length word) (length word) pos (omega arith) p q
          (drop pos url, ap (λ x. x ++ drop pos url) (sym (drop_all word))) in
      elim (Bool-cases (w == c)) [
        | inr other ↦ (
          some (pos + shift_by word url c),
          round_other pos w c gw gc other,
          omega (arith, shift_by_pos word url c n),
        )
        | inl same ↦ elim (Bool-cases (back.spos == 0)) [
          | inl e ↦ (
            none,
            round_same pos w c back gw gc same run ∙ rw e,
            found_here back ((==_iff back.spos 0).0 e) tail,
          )
          | inr e ↦ (
            some (back.pos + back.tmp),
            round_same pos w c back gw gc same run ∙ rw e,
            omega arith,
          )
        ]
      ]

  pub scan_url_past :
      (fuel pos : ℕ) → leb pos (length url) ≡ false → scan_url word url (suc fuel) pos ≡ some false
  unfolding scan_url
  scan_url_past fuel pos h = ground arith

  scan_url_hit :
      (fuel pos : ℕ)
      → leb pos (length url) ≡ true
      → round word url pos ≡ some none
      → scan_url word url (suc fuel) pos ≡ some true
  unfolding scan_url
  scan_url_hit fuel pos h r = ground arith

  pub scan_url_next :
      (fuel pos next : ℕ)
      → leb pos (length url) ≡ true
      → round word url pos ≡ some (some next)
      → scan_url word url (suc fuel) pos ≡ scan_url word url fuel next
  unfolding scan_url
  scan_url_next fuel pos next h r = ground arith

  -- The answer is returned, and a match is an occurrence.
  abbrev Answer : Option Bool → Type 0
  Answer o = (b : Bool) × (o ≡ some b) × (b ≡ true → Occurs word url)

  resume :
      (fuel pos : ℕ) (o : Option ℕ)
      → leb pos (length url) ≡ true
      → round word url pos ≡ some o
      → Outcome pos o
      → ((next : ℕ) → pos < next → Answer (scan_url word url fuel next))
      → Answer (scan_url word url (suc fuel) pos)
  resume fuel pos none inside run here later = (true, scan_url_hit fuel pos inside run, λ _. here)
  resume fuel pos (some next) inside run on later =
      let (b, more, sound) = later next on in
      (b, scan_url_next fuel pos next inside run ∙ more, sound)

  scan_url_lem :
      (fuel pos : ℕ)
      → 0 < length word
      → length word ≤ pos
      → length url < pos + fuel
      → Answer (scan_url word url (suc fuel) pos)
  scan_url_lem zero pos n p q = (false, scan_url_past zero pos (ground arith), λ e. cc)
  scan_url_lem (suc fuel) pos n p q = elim (Bool-cases (leb pos (length url))) [
    | inr past ↦ (false, scan_url_past (suc fuel) pos past, λ e. cc)
    | inl inside ↦
        let (o, run, end) = round_lem pos n p (leb→le pos (length url) inside) in
        resume (suc fuel) pos o inside run end
          (λ next on. scan_url_lem fuel next n (omega arith) (omega arith))
  ]

  find_word_lem : 0 < length word → Answer (find_word word url)
  unfolding find_word
  find_word_lem n = scan_url_lem (length url) (length word) n (omega arith) (omega arith)

  -- On a word that is not empty the search ends within its fuel and indexes nothing out of range: it finds nothing, or
  -- the word stands in the URL.
  pub find_word-Occurs :
      0 < length word
      → (find_word word url ≡ some false) ⊎ ((find_word word url ≡ some true) × Occurs word url)
  find_word-Occurs n =
      let (b, run, sound) = find_word_lem n in
      elim (Bool-cases b) [
        | inl hit ↦ inr (run ∙ ap some hit, sound hit)
        | inr other ↦ inl (run ∙ ap some other)
      ]
