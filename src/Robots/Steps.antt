-- ===== src/Robots/Steps.antt =====
-- The loop of `ParseRobotsTxt`, line by line.
use monocle.Prelude.{
  ◌≡◌, refl, Option, none, some, List, [], ◌∷◌, ◌++◌, Bool, true, false, if◌then◌else◌, arith,
}
use monocle.Prelude.Text.{Text, codes, eqb}
use monocle.Prelude.Unicode.{Unicode, lines, atoi}
use monocle.Robots.{
  Rule, Parser, user_agent, update_rule, directive, read_line, round, rounds, parse,
}

-- The agents that the lines name, in order.
abbrev pub named_by : Option (Text × Text) → List Text → List Text
named_by none rest = rest
named_by (some (name, value)) rest = if eqb name (codes "user-agent:") then value ∷ rest else rest

unfoldable pub agents : Unicode → List Text → List Text
agents u [] = []
agents u (l ∷ ls) = named_by (read_line u l) (agents u ls)

-- The other directives leave the map alone.
update_keeps :
    (f : Rule → Rule) (p : Parser)
    → ((update_rule f p).robots ≡ p.robots)
      × ((update_rule f p).current_rule ≡ none → p.current_rule ≡ none)
unfolding update_rule
update_keeps f p = ground arith

-- A run that faults nowhere and leaves the map alone.
abbrev pub Keeps : Parser → Option Parser → Type 0
Keeps p o =
    (p' : Parser) × (o ≡ some p')
    × (p'.robots ≡ p.robots)
    × (p'.current_rule ≡ none → p.current_rule ≡ none)

Keeps-if :
    (p : Parser) (b : Bool) (x y : Option Parser)
    → Keeps p x
    → Keeps p y
    → Keeps p (if b then x else y)
Keeps-if p true x y hx hy = hx
Keeps-if p false x y hx hy = hy

Keeps-update : (f : Rule → Rule) (p : Parser) → Keeps p (some (update_rule f p))
Keeps-update f p = (update_rule f p, refl, (update_keeps f p).0, (update_keeps f p).1)

pub directive_other :
    (name value : Text) (p : Parser)
    → eqb name (codes "user-agent:") ≡ false
    → Keeps p (directive name value p)
unfolding directive
directive_other name value p h = rw h (
    Keeps-if p (eqb name (codes "allow:")) _ _
      (Keeps-update (λ r. record r { allow = r.allow ++ value ∷ [] }) p)
      (Keeps-if p (eqb name (codes "disallow:")) _ _
        (Keeps-update (λ r. record r { disallow = r.disallow ++ value ∷ [] }) p)
        (Keeps-if p (eqb name (codes "crawl-delay:")) _ _
          (Keeps-update (λ r. record r { delay = atoi value }) p) (p, refl, refl, λ e. e))))

pub directive_agent :
    (name value : Text) (p : Parser)
    → eqb name (codes "user-agent:") ≡ true
    → directive name value p ≡ user_agent value p
unfolding directive
directive_agent name value p h = ground arith

module _ (u : Unicode) (l : Text) (ls : List Text) (p : Parser) where
  -- One line, with what it adds to the agents and what is left to run.
  pub line_skip :
      read_line u l ≡ none
      → (rounds u (l ∷ ls) p ≡ rounds u ls p) × (agents u (l ∷ ls) ≡ agents u ls)
  unfolding rounds agents round
  line_skip h = ground arith

  pub line_other :
      {name value : Text} {p' : Parser}
      → read_line u l ≡ some (name, value)
      → eqb name (codes "user-agent:") ≡ false
      → directive name value p ≡ some p'
      → (rounds u (l ∷ ls) p ≡ rounds u ls p') × (agents u (l ∷ ls) ≡ agents u ls)
  unfolding rounds agents round
  line_other h h' h'' = ground arith

  pub agents_agent :
      {name value : Text}
      → read_line u l ≡ some (name, value)
      → eqb name (codes "user-agent:") ≡ true
      → agents u (l ∷ ls) ≡ value ∷ agents u ls
  unfolding agents
  agents_agent h h' = ground arith

  pub line_agent :
      {name value : Text} {p' : Parser}
      → read_line u l ≡ some (name, value)
      → eqb name (codes "user-agent:") ≡ true
      → user_agent value p ≡ some p'
      → rounds u (l ∷ ls) p ≡ rounds u ls p'
  unfolding rounds round
  line_agent {name} {value} h h' h'' = ground (arith, directive_agent name value p)

abbrev pub start : Parser
start = record { robots = record { rules = [] }; current_agent = []; current_rule = none }

pub parse-rounds :
    (u : Unicode) (content : Text) {p : Parser}
    → rounds u (lines content) start ≡ some p
    → parse u content ≡ some p.robots
unfolding parse
parse-rounds u content h = ground arith
