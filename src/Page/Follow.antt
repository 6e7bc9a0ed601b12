-- ===== src/Page/Follow.antt =====
-- The links of a page that may be followed.
use monocle.Prelude.{
  ℕ, ◌<◌, ◌≡◌, ◌≢◌, refl, inl, inr, ltb, tests, ◌==◌, if◌then◌else◌, ◌||◌, Bool, true, false,
  Bool-cases, Option-cases, Option, some, List, [], All, All-append, arith,
}
use monocle.Prelude.Assoc.{lookup}
use monocle.Prelude.Text.{Text, eqb}
use monocle.Prelude.Unicode.{Unicode, trim_space}
use monocle.Robots.{RobotsTxt}
use monocle.Indexer.{Passage}
use monocle.Urls.{UrlLibrary, make_absolute_url, normalize_url, is_same_origin}
use monocle.Urls.Absolute.{IsHttps, make_absolute_url-IsHttps}
use monocle.Page.{LinkToken, Reader, may_follow, add_link, follow}

module _ (U : Type 0) (urls : UrlLibrary U) (u : Unicode) (base_url : U) (rules : Option RobotsTxt)
    (visited : List (Text × ℕ)) (current_deep : ℕ) where
  -- A link that is parsed from an absolute https address, that the rules allow, whose page was not visited or only at
  -- a greater depth, and whose mark is the one of its origin.
  abbrev pub IsFollowed : LinkToken U → Type 0
  IsFollowed t =
      (link : Text) × (normalized : Text) × IsHttps U urls link
      × (urls.parse link ≡ some t.link)
      × (normalize_url U urls u link ≡ some normalized)
      × (may_follow U urls u base_url rules visited current_deep t.link ≡ true)
      × ((d : ℕ) → lookup normalized visited ≡ some d → current_deep < d)
      × (t.same_domain ≡ is_same_origin U urls u t.link base_url)

  -- A text that is trimmed and not empty, of a heading or of the body.
  abbrev pub IsText : Passage → Type 0
  IsText p =
      (t : Text) × (p.text ≡ trim_space u t)
      × (p.text ≢ [])
      × ((p.kind == b'b' || p.kind == b'h') ≡ true)

  -- What was read so far.
  pub record IsSound (r : Reader U) : Type 0 where
    pub links : All IsFollowed r.links
    pub visit : All IsFollowed r.visit
    pub passages : All IsText r.passages

  pub if_lem : (b : Bool) (x y : Reader U) → IsSound x → IsSound y → IsSound (if b then x else y)
  if_lem true x y hx hy = hx
  if_lem false x y hx hy = hy

  pub with_stacks :
      (r : Reader U) (tags : List (ℕ × ℕ)) (garbage : List Text)
      → IsSound r
      → IsSound (record r { tag_stack = tags; garbage_tag_stack = garbage })
  with_stacks r tags garbage h = record { links = h.links; visit = h.visit; passages = h.passages }

  add_link-IsSound :
      (normalized link : Text) (uri : U) (r : Reader U)
      → IsHttps U urls link
      → urls.parse link ≡ some uri
      → normalize_url U urls u link ≡ some normalized
      → IsSound r
      → IsSound (add_link U urls u base_url rules visited current_deep normalized uri r)
  unfolding add_link
  add_link-IsSound normalized link uri r https parsed normal h =
      elim (Bool-cases (may_follow U urls u base_url rules visited current_deep uri)) [
        | inr refused ↦ rw (add_link, refused) h
        | inl allowed ↦ elim (Option-cases (lookup normalized visited)) [
          | inl unseen ↦
              rw (add_link, allowed, unseen)
                (record {
                  links = All-append IsFollowed r.links _ h.links (
                    (
                      link,
                      normalized,
                      https,
                      parsed,
                      normal,
                      allowed,
                      (λ d e. ground (arith, unseen, e)),
                      refl,
                    ),
                    tt,
                  );
                  visit = h.visit;
                  passages = h.passages;
                })
          | inr (depth, seen) ↦ elim (Bool-cases (ltb current_deep depth)) [
            | inr shallow ↦ rw (add_link, allowed, seen, shallow) h
            | inl deeper ↦
                rw (add_link, allowed, seen, deeper)
                  (record {
                    links = h.links;
                    visit = All-append IsFollowed r.visit _ h.visit (
                      (
                        link,
                        normalized,
                        https,
                        parsed,
                        normal,
                        allowed,
                        (λ d e. grind (tests, seen, deeper, e)),
                        refl,
                      ),
                      tt,
                    );
                    passages = h.passages;
                  })
          ]
        ]
      ]

  pub follow-IsSound :
      (val : Text) (r : Reader U)
      → IsSound r
      → IsSound (follow U urls u base_url rules visited current_deep val r)
  unfolding follow
  follow-IsSound val r h = elim (Option-cases (make_absolute_url U urls u val base_url)) [
    | inl failed ↦ rw (follow, failed) h
    | inr (link, made) ↦
        rw (follow, made)
          (elim (Option-cases (normalize_url U urls u link)) [
            | inl failed ↦ rw failed (if_lem (eqb link []) r r h h)
            | inr (normalized, normal) ↦ elim (Option-cases (urls.parse link)) [
              | inl failed ↦ rw (normal, failed) (if_lem (eqb link []) r r h h)
              | inr (uri, parsed) ↦
                  rw (normal, parsed)
                    (if_lem (eqb link []) r _ h (
                      add_link-IsSound normalized link uri r
                        (make_absolute_url-IsHttps U urls u val base_url link made) parsed normal
                        h))
            ]
          ])
  ]
