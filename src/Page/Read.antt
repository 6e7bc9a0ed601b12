-- ===== src/Page/Read.antt =====
-- What a page gives: the links that may be followed and the texts.
use monocle.Prelude.{
  ℕ, ◌+◌, ◌%◌, ◌≡◌, ◌≢◌, refl, inl, inr, ◌==◌, ◌&&◌, Bool, true, Bool-cases, Option-cases, Option,
  some, List, [], ◌∷◌, ◌++◌, get_elem?, All, All-append, List-cases, arith,
}
use monocle.Prelude.Text.{Text, codes, eqb, eqb_iff}
use monocle.Prelude.Unicode.{Unicode, lower, trim_space}
use monocle.Robots.{RobotsTxt}
use monocle.Indexer.{Passage}
use monocle.Urls.{UrlLibrary}
use monocle.Page.{
  HtmlToken, start_tag, end_tag, text, other_token, LinkToken, Reader, pop_header, pop_garbage,
  end_element, add_passage, first_href, any_garbage, is_skipped_element, start_element, step,
  read_tokens, start, parse_html_stream,
}
use monocle.Page.Follow.{IsFollowed, IsText, IsSound, if_lem, with_stacks, follow-IsSound}

-- An end tag has a name.
abbrev pub HasName : HtmlToken → Type 0
HasName (end_tag name) = name ≢ []
HasName token = true ≡ true

module _ (U : Type 0) (urls : UrlLibrary U) (u : Unicode) (base_url : U) (rules : Option RobotsTxt)
    (visited : List (Text × ℕ)) (current_deep : ℕ) where
  start_element-IsSound :
      (name : Text) (attrs : List (Text × Text)) (r : Reader U)
      → IsSound U urls u base_url rules visited current_deep r
      → IsSound U urls u base_url rules visited current_deep
          (start_element U urls u base_url rules visited current_deep name attrs r)
  unfolding start_element
  start_element-IsSound name attrs r h =
      let push =
        with_stacks U urls u base_url rules visited current_deep r r.tag_stack
          (name ∷ r.garbage_tag_stack) h in
      if_lem U urls u base_url rules visited current_deep (eqb name (codes "h1")) _ _
        (with_stacks U urls u base_url rules visited current_deep r _ r.garbage_tag_stack h)
        (if_lem U urls u base_url rules visited current_deep (eqb name (codes "h2")) _ _
          (with_stacks U urls u base_url rules visited current_deep r _ r.garbage_tag_stack h)
          (if_lem U urls u base_url rules visited current_deep (eqb name (codes "div")) _ _
            (if_lem U urls u base_url rules visited current_deep (any_garbage u attrs) _ _ push h)
            (if_lem U urls u base_url rules visited current_deep (eqb name (codes "a")) _ _
              (elim (Option-cases (first_href u attrs)) [
                | inl without ↦ rw without h
                | inr (val, found) ↦
                    rw found (follow-IsSound U urls u base_url rules visited current_deep val r h)
              ])
              (if_lem U urls u base_url rules visited current_deep (is_skipped_element name) _ _
                push h))))

  pop_header-IsSound :
      (name : Text) (r : Reader U)
      → IsSound U urls u base_url rules visited current_deep r
      → IsSound U urls u base_url rules visited current_deep (pop_header U name r)
  unfolding pop_header
  pop_header-IsSound name r h = elim (List-cases r.tag_stack) [
    | inl empty ↦ rw (pop_header, empty) h
    | inr ((t, level), stack, at) ↦ elim (Option-cases (get_elem? name 1)) [
      | inl short ↦ rw (pop_header, at, short) h
      | inr (c, found) ↦
          rw (pop_header, at, found)
            (if_lem U urls u base_url rules visited current_deep (level == c) _ r
              (with_stacks U urls u base_url rules visited current_deep r stack r.garbage_tag_stack
                h)
              h)
    ]
  ]

  pop_garbage-IsSound :
      (name : Text) (r : Reader U)
      → IsSound U urls u base_url rules visited current_deep r
      → IsSound U urls u base_url rules visited current_deep (pop_garbage U name r)
  unfolding pop_garbage
  pop_garbage-IsSound name r h = elim (List-cases r.garbage_tag_stack) [
    | inl empty ↦ rw (pop_garbage, empty) h
    | inr (top, stack, at) ↦
        rw (pop_garbage, at)
          (if_lem U urls u base_url rules visited current_deep (eqb top name) _ r
            (with_stacks U urls u base_url rules visited current_deep r r.tag_stack stack h) h)
  ]

  add_passage-IsSound :
      (t : Text) (r : Reader U)
      → IsSound U urls u base_url rules visited current_deep r
      → IsSound U urls u base_url rules visited current_deep (add_passage U u t r)
  unfolding add_passage
  add_passage-IsSound t r h = elim (Bool-cases (eqb (trim_space u t) [])) [
    | inl blank ↦ rw (add_passage, blank) h
    | inr filled ↦
        rw (add_passage, filled)
          (record {
            links = h.links;
            visit = h.visit;
            passages =
                All-append (IsText U urls u base_url rules visited current_deep) r.passages _
                  h.passages
                  (
                    (
                      t,
                      refl,
                      (λ e. ground (arith, filled, e, (eqb_iff (trim_space u t) []).1)),
                      ground (arith, List-cases r.tag_stack),
                    ),
                    tt,
                  );
          })
  ]

  step-IsSound :
      (token : HtmlToken) (r : Reader U)
      → HasName token
      → IsSound U urls u base_url rules visited current_deep r
      → (next : Reader U) × (step U urls u base_url rules visited current_deep token r ≡ some next)
        × IsSound U urls u base_url rules visited current_deep next
  unfolding step end_element
  step-IsSound (start_tag name attrs) r named h = elim (List-cases r.garbage_tag_stack) [
    | inl none_open ↦ (_, simp (step, none_open), start_element-IsSound (lower u name) attrs r h)
    | inr (top, stack, opened) ↦ (r, simp (step, opened), h)
  ]
  step-IsSound (end_tag []) r named h = absurd (named refl)
  step-IsSound (end_tag (c ∷ name)) r named h = (
    _,
    refl,
    pop_garbage-IsSound _ _
        (if_lem U urls u base_url rules visited current_deep _ _ _ (pop_header-IsSound _ r h) h),
  )
  step-IsSound (text t) r named h = elim (List-cases r.garbage_tag_stack) [
    | inl none_open ↦ (_, simp (step, none_open), add_passage-IsSound t r h)
    | inr (top, stack, opened) ↦ (r, simp (step, opened), h)
  ]
  step-IsSound other_token r named h = (r, refl, h)

  read_tokens-IsSound :
      (is_done : ℕ → Bool) (token_count : ℕ) (tokens : List HtmlToken) (r : Reader U)
      → All HasName tokens
      → IsSound U urls u base_url rules visited current_deep r
      → (end : Reader U) × (read_tokens U urls u base_url rules visited current_deep is_done
            token_count tokens r
          ≡ some end)
        × IsSound U urls u base_url rules visited current_deep end
  unfolding read_tokens
  read_tokens-IsSound is_done token_count [] r named h = (r, refl, h)
  read_tokens-IsSound is_done token_count (token ∷ tokens) r (name, named) h =
      elim (Bool-cases (((token_count + 1) % 10 == 0) && is_done (token_count + 1))) [
        | inl done ↦ (r, rw (read_tokens, done) refl, h)
        | inr go ↦
            let (next, stepped, h') = step-IsSound token r name h in
            let (end, run, h'') =
              read_tokens-IsSound is_done (token_count + 1) tokens next named h' in
            (end, rw (read_tokens, go, stepped) run, h'')
      ]

  -- Where every end tag has a name, the page is read to its end or until the context is done, without a fault: each
  -- link that is returned stands for an absolute https address that parses and that has a normal form, the rules allow
  -- its path, its normal form is not among the visited ones or is there with a greater depth, and its mark says if it
  -- is of the page's origin; and each text is the trimmed form of some text, not empty, of the kind 'b' or 'h'.
  pub parse_html_stream-IsFollowed :
      (is_done : ℕ → Bool) (tokens : List HtmlToken)
      → All HasName tokens
      → (found : List (LinkToken U)) × (passages : List Passage) × (parse_html_stream U urls u
            base_url rules visited current_deep is_done tokens
          ≡ some (found, passages))
        × All (IsFollowed U urls u base_url rules visited current_deep) found
        × All (IsText U urls u base_url rules visited current_deep) passages
  unfolding parse_html_stream
  parse_html_stream-IsFollowed is_done tokens named =
      let (end, run, h) =
        read_tokens-IsSound is_done 0 tokens (start U urls u base_url rules visited current_deep)
          named (record { links = tt; visit = tt; passages = tt }) in
      (
        end.links ++ end.visit,
        end.passages,
        rw (parse_html_stream, run) refl,
        All-append (IsFollowed U urls u base_url rules visited current_deep) end.links end.visit
            h.links h.visit,
        h.passages,
      )
