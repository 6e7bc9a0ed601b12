-- ===== src/Robots.antt =====
-- pkg/parser/robotsTXT.go: `ParseRobotsTxt` and `(*RobotsTxt).IsAllowed`.
pub mod Access
pub mod Steps
pub mod Stored
pub mod Names
mod Tests
use monocle.Prelude.{ℕ, Option, none, some, List, [], ◌∷◌, ◌++◌, Bool, true, false, if◌then◌else◌}
use monocle.Prelude.Maybe.{◌>>=◌}
use monocle.Prelude.Text.{Text, codes, eqb, has_prefix}
use monocle.Prelude.Assoc.{lookup, insert}
use monocle.Prelude.Unicode.{Unicode, lower, trim_space, fields, lines, atoi, ℤ, pos}

pub record Rule : Type 0 where
  pub allow : List Text
  pub disallow : List Text
  pub delay : ℤ

-- `&Rule{Allow: []string{}, Disallow: []string{}}`
abbrev pub empty_rule : Rule
empty_rule = record { allow = []; disallow = []; delay = pos 0 }

pub record RobotsTxt : Type 0 where
  pub rules : List (Text × Rule)

-- The variables of the loop; `current_rule` is a pointer, `none` is nil. The map holds copies.
pub record Parser : Type 0 where
  pub robots : RobotsTxt
  pub current_agent : Text
  pub current_rule : Option Rule

-- `case "user-agent:"`; `*currentRule` faults where the pointer is nil.
unfoldable pub user_agent : Text → Parser → Option Parser
user_agent value p =
    let rule : Option Rule = elim (lookup value p.robots.rules) [
      | none ↦ some empty_rule
      | some _ ↦ p.current_rule
    ] in
    do
      copy ← rule
      some (record {
        robots = record { rules = insert value copy p.robots.rules };
        current_agent = value;
        current_rule = rule;
      })

-- A case that changes `*currentRule` if it is not nil.
unfoldable pub update_rule : (Rule → Rule) → Parser → Parser
update_rule f p = elim p.current_rule [ none ↦ p | some r ↦ record p { current_rule = some (f r) } ]

unfoldable pub directive : Text → Text → Parser → Option Parser
directive name value p =
    if eqb name (codes "user-agent:")
    then user_agent value p
    else if eqb name (codes "allow:")
    then some (update_rule (λ r. record r { allow = r.allow ++ value ∷ [] }) p)
    else if eqb name (codes "disallow:")
    then some (update_rule (λ r. record r { disallow = r.disallow ++ value ∷ [] }) p)
    else if eqb name (codes "crawl-delay:")
    then some (update_rule (λ r. record r { delay = atoi value }) p)
    else some p

module _ (u : Unicode) where
  -- The directive of a line and its value; `none` where the loop continues before its switch.
  unfoldable pub words_of : List Text → Option (Text × Text)
  words_of [] = none
  words_of (name ∷ []) = none
  words_of (name ∷ value ∷ more) = some (lower u name, value)

  unfoldable pub read_line : Text → Option (Text × Text)
  read_line raw =
      let line = trim_space u raw in
      elim line [
        | [] ↦ none
        | c ∷ s ↦ if has_prefix (c ∷ s) (codes "#") then none else words_of (fields u (c ∷ s))
      ]

  -- One round of the loop.
  unfoldable pub round : Text → Parser → Option Parser
  round raw p = elim (read_line raw) [ none ↦ some p | some (name, value) ↦ directive name value p ]

  unfoldable pub rounds : List Text → Parser → Option Parser
  rounds [] p = some p
  rounds (l ∷ ls) p = round l p >>= rounds ls

  unfoldable pub parse : Text → Option RobotsTxt
  parse content = do
    p ←
        rounds (lines content)
          (record { robots = record { rules = [] }; current_agent = []; current_rule = none })
    some p.robots

-- The two loops of `IsAllowed` over one rule.
unfoldable pub any_prefix : Text → List Text → Bool
any_prefix url [] = false
any_prefix url (p ∷ ps) = if has_prefix url p then true else any_prefix url ps

unfoldable pub allowed_by : Rule → Text → Bool
allowed_by rule url =
    if any_prefix url rule.disallow then false else if any_prefix url rule.allow then true else true

unfoldable pub is_allowed : RobotsTxt → Text → Text → Bool
is_allowed r user_agent url = elim (lookup user_agent r.rules) [
  | some rule ↦ allowed_by rule url
  | none ↦ elim (lookup (codes "*") r.rules) [ some rule ↦ allowed_by rule url | none ↦ true ]
]
