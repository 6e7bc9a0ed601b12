-- ===== src/Indexer/Places.antt =====
-- The index of a document: every word is listed at the places where it stands among the counted tokens.
use monocle.Prelude.{
  ℕ, suc, ◌+◌, ◌≡◌, refl, sym, ◌∙◌, ap, ◌==◌, ◌||◌, if◌then◌else◌, true, false, List, [], ◌∷◌, ◌++◌,
  some, length, arith, Bool-cases, append_assoc, append-nil, length-append, inl, inr,
}
use mathlib.Core.Path.{subst}
use monocle.Prelude.Assoc.{insert, lookup-insert}
use monocle.Prelude.Text.{Text, eqb, eqb_iff}
use monocle.Tokenizer.{Token}
use monocle.Proximity.{Position}
use monocle.Indexer.{
  new_position, Counters, count_of, positions_of, is_skipped, record_word, count_token,
  count_tokens,
}

-- The counted words in their order, each with the kind of its passage.
abbrev pub Sequence : Type 0
Sequence = List (Text × ℕ)

-- Where `w` stands in a sequence that starts at position `i`.
abbrev pub places : Text → ℕ → Sequence → List Position
places w i [] = []
places w i ((v, kind) ∷ s) =
    if eqb v w then record { i = i; kind = kind } ∷ places w (suc i) s else places w (suc i) s

places-append :
    (w : Text) (i : ℕ) (s t : Sequence)
    → places w i (s ++ t) ≡ places w i s ++ places w (i + length s) t
places-append w i [] t = ap (λ n. places w n t) (omega arith)
places-append w i ((v, kind) ∷ s) t =
    let shift : i + length ((v, kind) ∷ s) ≡ suc i + length s = omega arith in
    let rest =
      places-append w (suc i) s t ∙ ap (λ n. places w (suc i) s ++ places w n t) (sym shift) in
    elim (Bool-cases (eqb v w)) [
      | inl same ↦ rw same (ap (◌∷◌ (record { i = i; kind = kind })) rest)
      | inr other ↦ rw other rest
    ]

-- The counters hold the places and their numbers.
pub record Counts (s : Sequence) (c : Counters) : Type 0 where
  pub i : c.i ≡ length s
  pub pos : (w : Text) → positions_of w c.pos ≡ places w 0 s
  pub stem : (w : Text) → count_of w c.stem ≡ length (places w 0 s)

count_of-insert :
    (k w : Text) (n : ℕ) (m : List (Text × ℕ))
    → count_of w (insert k n m) ≡ (if eqb k w then n else count_of w m)
unfolding count_of
count_of-insert k w n m = ground (arith, lookup-insert k w n m)

positions_of-insert :
    (k w : Text) (ps : List Position) (m : List (Text × List Position))
    → positions_of w (insert k ps m) ≡ (if eqb k w then ps else positions_of w m)
unfolding positions_of
positions_of-insert k w ps m = ground (arith, lookup-insert k w ps m)

module _ (s : Sequence) (w v : Text) (kind : ℕ) where
  snoc_same :
      (n : ℕ)
      → n ≡ length s
      → eqb w v ≡ true
      → places v 0 (s ++ (w, kind) ∷ []) ≡ places v 0 s ++ record { i = n; kind = kind } ∷ []
  snoc_same n e same =
      places-append v 0 s ((w, kind) ∷ [])
      ∙ rw same (ap (λ m. places v 0 s ++ record { i = m; kind = kind } ∷ []) (omega (arith, e)))

  snoc_other : eqb w v ≡ false → places v 0 (s ++ (w, kind) ∷ []) ≡ places v 0 s
  snoc_other other = places-append v 0 s ((w, kind) ∷ []) ∙ rw other (append-nil (places v 0 s))

-- One more word.
module _ (s : Sequence) (c : Counters) (w : Text) (kind : ℕ) (h : Counts s c) where
  pos_more :
      (v : Text)
      → positions_of v (record_word w (record { i = c.i; kind = kind }) c).pos
        ≡ places v 0 (s ++ (w, kind) ∷ [])
  unfolding record_word
  pos_more v = positions_of-insert w v _ c.pos ∙ elim (Bool-cases (eqb w v)) [
    | inl same ↦
        rw same (
          ap (λ ps. ps ++ record { i = c.i; kind = kind } ∷ [])
            (h.pos w ∙ ap (λ x. places x 0 s) ((eqb_iff w v).0 same)))
        ∙ sym (snoc_same s w v kind c.i h.i same)
    | inr other ↦ rw other (h.pos v) ∙ sym (snoc_other s w v kind other)
  ]

  stem_more :
      (v : Text)
      → count_of v (record_word w (record { i = c.i; kind = kind }) c).stem
        ≡ length (places v 0 (s ++ (w, kind) ∷ []))
  unfolding record_word
  stem_more v = count_of-insert w v _ c.stem ∙ elim (Bool-cases (eqb w v)) [
    | inl same ↦
        let w=v : w ≡ v = (eqb_iff w v).0 same in
        rw same (
          omega (
            arith,
            h.stem w,
            ap (λ x. length (places x 0 s)) w=v,
            ap length (snoc_same s w v kind c.i h.i same),
            length-append (places v 0 s) (record { i = c.i; kind = kind } ∷ []),
          ))
    | inr other ↦ rw other (h.stem v) ∙ ap length (sym (snoc_other s w v kind other))
  ]

  pub record_word-Counts :
      Counts (s ++ (w, kind) ∷ []) (record_word w (record { i = c.i; kind = kind }) c)
  record_word-Counts = record {
    i = unfold record_word in omega (arith, h.i, length-append s ((w, kind) ∷ []));
    pos = pos_more;
    stem = stem_more;
  }

-- The words of one passage that are counted.
abbrev pub kept : ℕ → List Token → Sequence
kept kind [] = []
kept kind (t ∷ tokens) =
    if is_skipped t then kept kind tokens else (t.value, kind) ∷ kept kind tokens

-- A kind that `NewTypeTextObj` does not refuse.
abbrev pub IsKnown : ℕ → Type 0
IsKnown kind = (kind == b'b' || kind == b'h' || kind == b'q') ≡ true

skip_step :
    (kind : ℕ) (t : Token) (tokens : List Token) (c : Counters)
    → is_skipped t ≡ true
    → count_tokens kind (t ∷ tokens) c ≡ count_tokens kind tokens c
unfolding count_tokens count_token
skip_step kind t tokens c h = rw h

count_step :
    (kind : ℕ) (t : Token) (tokens : List Token) (c : Counters)
    → is_skipped t ≡ false
    → IsKnown kind
    → count_tokens kind (t ∷ tokens) c
      ≡ count_tokens kind tokens (record_word t.value (record { i = c.i; kind = kind }) c)
unfolding count_tokens count_token new_position
count_step kind t tokens c h k = rw (h, k)

pub count_tokens_lem :
    (kind : ℕ) (tokens : List Token) (s : Sequence) (c : Counters)
    → IsKnown kind
    → Counts s c
    → (d : Counters) × (count_tokens kind tokens c ≡ some d) × Counts (s ++ kept kind tokens) d
count_tokens_lem kind [] s c k h =
    (c, unfold count_tokens in refl, subst (λ r. Counts r c) (sym (append-nil s)) h)
count_tokens_lem kind (t ∷ tokens) s c k h = elim (Bool-cases (is_skipped t)) [
  | inl skipped ↦
      let (d, run, h') = count_tokens_lem kind tokens s c k h in
      (d, skip_step kind t tokens c skipped ∙ run, rw skipped h')
  | inr counted ↦
      let (d, run, h') =
        count_tokens_lem kind tokens (s ++ (t.value, kind) ∷ []) _ k
          (record_word-Counts s c t.value kind h) in
      (
        d,
        count_step kind t tokens c counted k ∙ run,
        rw counted
            (subst (λ r. Counts r d) (append_assoc s ((t.value, kind) ∷ []) (kept kind tokens)) h'),
      )
]
