-- ===== src/Page/Nested.antt =====
-- The elements that are left out: which end tag ends one.
use monocle.Prelude.{
  ℕ, ◌+◌, ◌%◌, ◌≡◌, ◌≢◌, refl, sym, ◌∙◌, ap, inl, inr, ◌==◌, true, false, Bool-cases, Option-cases,
  Option, some, List, [], ◌∷◌, ◌++◌, length, get_elem?, All, List-cases, arith,
}
use monocle.Prelude.Text.{Text, eqb, eqb_iff, eqb_refl}
use monocle.Prelude.Unicode.{Unicode, lower}
use monocle.Robots.{RobotsTxt}
use monocle.Urls.{UrlLibrary}
use monocle.Page.{
  HtmlToken, start_tag, end_tag, text, other_token, Reader, pop_header, pop_garbage, end_element,
  step, read_tokens,
}
use monocle.Page.Read.{HasName}

-- Not the end of an element `name`.
abbrev pub IsInside : Unicode → Text → HtmlToken → Type 0
IsInside u name (end_tag other) = lower u other ≢ name
IsInside u name token = true ≡ true

lower_named : (u : Unicode) (name : Text) → name ≢ [] → lower u name ≢ []
lower_named u [] named e = named refl
lower_named u (c ∷ name) named e = omega (arith, ap length e)

module _ (U : Type 0) where
  pop_header_lem :
      (name : Text) (r : Reader U)
      → (tags : List (ℕ × ℕ)) × (pop_header U name r ≡ record r { tag_stack = tags })
  unfolding pop_header
  pop_header_lem name r = elim (List-cases r.tag_stack) [
    | inl empty ↦
        let same : pop_header U name r ≡ r = simp (pop_header, empty) in (r.tag_stack, same)
    | inr ((t, level), stack, at) ↦ elim (Option-cases (get_elem? name 1)) [
      | inl short ↦
          let same : pop_header U name r ≡ r = simp (pop_header, at, short) in (r.tag_stack, same)
      | inr (c, found) ↦ elim (Bool-cases (level == c)) [
        | inl same ↦ (stack, simp (pop_header, at, found, same))
        | inr other ↦
            let kept : pop_header U name r ≡ r = simp (pop_header, at, found, other) in
            (r.tag_stack, kept)
      ]
    ]
  ]

  end_element_lem :
      (name : Text) (r : Reader U)
      → name ≢ []
      → (tags : List (ℕ × ℕ)) × (end_element U name r
          ≡ some (pop_garbage U name (record r { tag_stack = tags })))
  unfolding end_element
  end_element_lem [] r named = absurd (named refl)
  end_element_lem (c ∷ name) r named = elim (Bool-cases (c == b'h')) [
    | inl header ↦
        let (tags, popped) = pop_header_lem (c ∷ name) r in
        (tags, rw header (ap (λ x. some (pop_garbage U (c ∷ name) x)) popped))
    | inr other ↦ (r.tag_stack, rw other refl)
  ]

  pop_garbage_inside :
      (name top : Text) (stack : List Text) (r : Reader U)
      → r.garbage_tag_stack ≡ top ∷ stack
      → name ≢ top
      → pop_garbage U name r ≡ r
  unfolding pop_garbage
  pop_garbage_inside name top stack r e differ = elim (Bool-cases (eqb top name)) [
    | inl same ↦ absurd (differ (sym ((eqb_iff top name).0 same)))
    | inr other ↦ simp (pop_garbage, e, other)
  ]

  pop_garbage_end :
      (name : Text) (stack : List Text) (r : Reader U)
      → r.garbage_tag_stack ≡ name ∷ stack
      → pop_garbage U name r ≡ record r { garbage_tag_stack = stack }
  unfolding pop_garbage
  pop_garbage_end name stack r e = simp (pop_garbage, e, eqb_refl name)

module _ (U : Type 0) (urls : UrlLibrary U) (u : Unicode) (base_url : U) (rules : Option RobotsTxt)
    (visited : List (Text × ℕ)) (current_deep : ℕ) where
  -- The loop where the context is never seen to be done.
  abbrev pub read_on : ℕ → List HtmlToken → Reader U → Option (Reader U)
  read_on n tokens r =
      read_tokens U urls u base_url rules visited current_deep (λ k. false) n tokens r

  read_step :
      (n : ℕ) (token : HtmlToken) (tokens : List HtmlToken) (r next : Reader U)
      → step U urls u base_url rules visited current_deep token r ≡ some next
      → read_on n (token ∷ tokens) r ≡ read_on (n + 1) tokens next
  unfolding read_tokens
  read_step n token tokens r next h = elim (Bool-cases ((n + 1) % 10 == 0)) [
    | inl tenth ↦ rw (read_tokens, tenth, h) refl
    | inr other ↦ rw (read_tokens, other, h) refl
  ]

  step_inside :
      (name : Text) (token : HtmlToken) (stack : List Text) (r : Reader U)
      → r.garbage_tag_stack ≡ name ∷ stack
      → HasName token
      → IsInside u name token
      → (tags : List (ℕ × ℕ)) × (step U urls u base_url rules visited current_deep token r
          ≡ some (record r { tag_stack = tags }))
  unfolding step
  step_inside name (start_tag other attrs) stack r e named inside =
      let kept : step U urls u base_url rules visited current_deep (start_tag other attrs) r
          ≡ some r =
        simp (step, e) in
      (r.tag_stack, kept)
  step_inside name (end_tag []) stack r e named inside = absurd (named refl)
  step_inside name (end_tag (c ∷ other)) stack r e named inside =
      let (tags, ended) =
        end_element_lem U (lower u (c ∷ other)) r (lower_named u (c ∷ other) named) in
      (
        tags,
        ended
            ∙ ap some (
                pop_garbage_inside U (lower u (c ∷ other)) name stack
                  (record r { tag_stack = tags }) e inside),
      )
  step_inside name (text t) stack r e named inside =
      let kept : step U urls u base_url rules visited current_deep (text t) r ≡ some r =
        simp (step, e) in
      (r.tag_stack, kept)
  step_inside name other_token stack r e named inside = (r.tag_stack, refl)

  -- Where an element that is left out was opened, the reader takes no link and no text up to the first end tag of that
  -- name, and with that tag the element counts as closed, whatever start tags of that name stood before it.
  pub read_tokens-end_tag :
      (name : Text) (n : ℕ) (inside rest : List HtmlToken) (stack : List Text) (r : Reader U)
      → name ≢ []
      → r.garbage_tag_stack ≡ lower u name ∷ stack
      → All HasName inside
      → All (IsInside u (lower u name)) inside
      → (tags : List (ℕ × ℕ)) × (read_on n (inside ++ end_tag name ∷ rest) r
          ≡ read_on
              (n + length inside + 1)
              rest
              (record r { tag_stack = tags; garbage_tag_stack = stack }))
  read_tokens-end_tag name n [] rest stack r named e h inside =
      let (tags, ended) = end_element_lem U (lower u name) r (lower_named u name named) in
      let closed = pop_garbage_end U (lower u name) stack (record r { tag_stack = tags }) e in
      let stepped : step U urls u base_url rules visited current_deep (end_tag name) r
          ≡ some (record r { tag_stack = tags; garbage_tag_stack = stack }) =
        unfold step in ended ∙ ap some closed in
      (
        tags,
        read_step n (end_tag name) rest r _ stepped
            ∙ ap (λ k. read_on k rest (record r { tag_stack = tags; garbage_tag_stack = stack }))
                (omega arith),
      )
  read_tokens-end_tag name n (token ∷ tokens) rest stack r named e (h, hs) (at, inside) =
      let (tags, stepped) = step_inside (lower u name) token stack r e h at in
      let (end, run) =
        read_tokens-end_tag name (n + 1) tokens rest stack (record r { tag_stack = tags }) named e
          hs inside in
      (
        end,
        read_step n token _ r _ stepped
            ∙ run
            ∙ ap (λ k. read_on k rest (record r { tag_stack = end; garbage_tag_stack = stack }))
                (omega arith),
      )
