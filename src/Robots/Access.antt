-- ===== src/Robots/Access.antt =====
-- What `IsAllowed` refuses.
use monocle.Prelude.{
  ◌≡◌, refl, sym, ◌∙◌, ◌↔◌, ◌⊎◌, inl, inr, ap, none, some, List, [], ◌∷◌, ◌++◌, true, false, arith,
  Bool-cases, Option-cases,
}
use mathlib.Core.Bool.{true≢false}
use monocle.Prelude.Text.{Text, codes, has_prefix, has_prefix_iff}
use monocle.Prelude.Assoc.{lookup}
use monocle.Robots.{Rule, RobotsTxt, any_prefix, allowed_by, is_allowed}

-- Some prefix of the list begins the URL's path.
abbrev pub BeginsWithOne : List Text → Text → Type 0
BeginsWithOne ps url =
    (before : List Text) × (p : Text) × (after : List Text) × (rest : Text) × (ps
      ≡ before ++ p ∷ after)
    × (url ≡ p ++ rest)

any_prefix_sound : (url : Text) (ps : List Text) → any_prefix url ps ≡ true → BeginsWithOne ps url
unfolding any_prefix
any_prefix_sound url [] h = ground arith
any_prefix_sound url (p ∷ ps) h = elim (Bool-cases (has_prefix url p)) [
  | inl here ↦ let (rest, e) = (has_prefix_iff url p).0 here in ([], p, ps, rest, refl, e)
  | inr other ↦
      let (before, q, after, rest, e, e') = any_prefix_sound url ps (ground arith) in
      (p ∷ before, q, after, rest, ap (◌∷◌ p) e, e')
]

any_prefix-append :
    (url p : Text) (before after : List Text)
    → has_prefix url p ≡ true
    → any_prefix url (before ++ p ∷ after) ≡ true
unfolding any_prefix
any_prefix-append url p [] after h = rw h
any_prefix-append url p (q ∷ before) after h =
    ground (arith, any_prefix-append url p before after h)

any_prefix_complete :
    (url : Text) (ps : List Text) → BeginsWithOne ps url → any_prefix url ps ≡ true
any_prefix_complete url ps (before, p, after, rest, e, e') =
    rw e (any_prefix-append url p before after ((has_prefix_iff url p).1 (rest, e')))

-- The rule that governs a user agent: its own, or that of `*` where it has none.
abbrev pub Governs : RobotsTxt → Text → Rule → Type 0
Governs r agent rule =
    (lookup agent r.rules ≡ some rule)
    ⊎ ((lookup agent r.rules ≡ none) × (lookup (codes "*") r.rules ≡ some rule))

allowed_by-false :
    (rule : Rule) (url : Text) → allowed_by rule url ≡ false → any_prefix url rule.disallow ≡ true
unfolding allowed_by
allowed_by-false rule url h = ground arith

allowed_by_forbidden :
    (rule : Rule) (url : Text) → any_prefix url rule.disallow ≡ true → allowed_by rule url ≡ false
unfolding allowed_by
allowed_by_forbidden rule url h = ground arith

module _ (r : RobotsTxt) (agent url : Text) where
  abbrev pub IsForbidden : Type 0
  IsForbidden = (rule : Rule) × Governs r agent rule × BeginsWithOne rule.disallow url

  by_rule : (rule : Rule) → Governs r agent rule → is_allowed r agent url ≡ allowed_by rule url
  unfolding is_allowed
  by_rule rule (inl own) = ground arith
  by_rule rule (inr (missing, star)) = ground arith

  by_none :
      lookup agent r.rules ≡ none
      → lookup (codes "*") r.rules ≡ none
      → is_allowed r agent url ≡ true
  unfolding is_allowed
  by_none p q = ground arith

  refused_by : (rule : Rule) → Governs r agent rule → is_allowed r agent url ≡ false → IsForbidden
  refused_by rule g h = (
    rule,
    g,
    any_prefix_sound url rule.disallow (allowed_by-false rule url (sym (by_rule rule g) ∙ h)),
  )

  refused : is_allowed r agent url ≡ false → IsForbidden
  refused h = elim (Option-cases (lookup agent r.rules)) [
    | inr (rule, own) ↦ refused_by rule (inl own) h
    | inl missing ↦ elim (Option-cases (lookup (codes "*") r.rules)) [
      | inr (rule, star) ↦ refused_by rule (inr (missing, star)) h
      | inl nobody ↦ absurd (true≢false (sym (by_none missing nobody) ∙ h))
    ]
  ]

  forbidden : IsForbidden → is_allowed r agent url ≡ false
  forbidden (rule, g, b) =
      by_rule rule g ∙ allowed_by_forbidden rule url (any_prefix_complete url rule.disallow b)

-- A path is refused exactly when the rule that governs the agent disallows a prefix of it; its
-- `Allow` lines never matter.
pub is_allowed-eq-false_iff :
    (r : RobotsTxt) (agent url : Text) → (is_allowed r agent url ≡ false) ↔ IsForbidden r agent url
is_allowed-eq-false_iff r agent url = (refused r agent url, forbidden r agent url)
