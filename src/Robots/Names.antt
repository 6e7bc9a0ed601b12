-- ===== src/Robots/Names.antt =====
-- `ParseRobotsTxt` never faults, and its map has the agents that the lines name.
use monocle.Prelude.{
  ◌≡◌, ◌≢◌, refl, ◌∙◌, ◌↔◌, inl, inr, none, some, List, [], ◌∷◌, arith, Bool-cases, Option-cases,
  All,
}
use mathlib.Core.Path.{subst}
use monocle.Prelude.Text.{Text, codes, eqb, eqb_iff}
use monocle.Prelude.Assoc.{lookup, insert, lookup-insert}
use monocle.Prelude.Unicode.{Unicode, lines}
use monocle.Robots.{Rule, RobotsTxt, Parser, empty_rule, user_agent, read_line, rounds, parse}
use monocle.Robots.Steps.{
  agents, directive_other, line_skip, line_other, agents_agent, line_agent, start, parse-rounds,
}

-- A map that had an entry before the pointer is set would make the copy fault.
abbrev IsStarted : Parser → Type 0
IsStarted p = (k : Text) → p.current_rule ≡ none → lookup k p.robots.rules ≡ none

-- Exactly the agents of `l` are new keys of the map.
abbrev Adds : List Text → Parser → Parser → Type 0
Adds l p p' =
    (a : Text)
    → (lookup a p'.robots.rules ≡ none) ↔ (All (λ b. b ≢ a) l × (lookup a p.robots.rules ≡ none))

-- The state behind a line for an agent whose copied rule is `copy`.
abbrev stored : Text → Rule → Parser → Parser
stored value copy p = record {
  robots = record { rules = insert value copy p.robots.rules };
  current_agent = value;
  current_rule = some copy;
}

user_agent-stored :
    (value : Text) (p : Parser)
    → IsStarted p
    → (copy : Rule) × (user_agent value p ≡ some (stored value copy p))
unfolding user_agent
user_agent-stored value p s = elim (Option-cases (lookup value p.robots.rules)) [
  | inl new ↦ (empty_rule, ground arith)
  | inr (old, known) ↦ elim (Option-cases p.current_rule) [
    | inl nil ↦ absurd (ground (arith, s value nil))
    | inr (r, set) ↦ (r, ground arith)
  ]
]

stored-IsStarted : (value : Text) (copy : Rule) (p : Parser) → IsStarted (stored value copy p)
stored-IsStarted value copy p k h = ground arith

lookup-stored :
    (value : Text) (copy : Rule) (p : Parser) (a : Text)
    → (lookup a (stored value copy p).robots.rules ≡ none)
      ↔ ((value ≢ a) × (lookup a p.robots.rules ≡ none))
lookup-stored value copy p a =
    ground (arith, lookup-insert value a copy p.robots.rules, eqb_iff value a)

module _ (u : Unicode) where
  rounds_names :
      (ls : List Text) (p : Parser)
      → IsStarted p
      → (p' : Parser) × (rounds u ls p ≡ some p') × Adds (agents u ls) p p'
  unfolding agents
  rounds_names [] p s = (p, unfold rounds in refl, λ a. (λ h. (tt, h), λ h. h.1))
  rounds_names (l ∷ ls) p s = elim (Option-cases (read_line u l)) [
    | inl skip ↦ let (run, same) = line_skip u l ls p skip in rw (run, same) (rounds_names ls p s)
    | inr ((name, value), reads) ↦ elim (Bool-cases (eqb name (codes "user-agent:"))) [
      | inl agent ↦
          let (copy, step) = user_agent-stored value p s in
          let (p', runs, adds) =
            rounds_names ls (stored value copy p) (stored-IsStarted value copy p) in
          (
            p',
            line_agent u l ls p reads agent step ∙ runs,
            rw (agents_agent u l ls p reads agent) (λ a. (
              λ h.
                  let (others, old) = (adds a).0 h in
                  let (new, h') = (lookup-stored value copy p a).0 old in ((new, others), h'),
              λ h. (adds a).1 (h.0.1, (lookup-stored value copy p a).1 (h.0.0, h.1)),
            )),
          )
      | inr other ↦
          let (p', step, kept, n) = directive_other name value p other in
          let (run, same) = line_other u l ls p reads other step in
          let (p'', runs, adds) = rounds_names ls p' (λ k h. rw kept (s k (n h))) in
          (
            p'',
            run ∙ runs,
            rw same (
                subst
                  (λ r.
                    (a : Text)
                    → (lookup a p''.robots.rules ≡ none)
                      ↔ (All (λ b. b ≢ a) (agents u ls) × (lookup a r.rules ≡ none)))
                  kept adds),
          )
    ]
  ]

-- The parser faults on no text: the pointer is set whenever it is read. The agents that have a rule
-- in the result are exactly those that some user-agent line names.
pub parse_names :
    (u : Unicode) (content : Text)
    → (r : RobotsTxt) × (parse u content ≡ some r)
      × ((a : Text) → (lookup a r.rules ≡ none) ↔ All (λ b. b ≢ a) (agents u (lines content)))
unfolding lookup
parse_names u content =
    let (p, run, adds) = rounds_names u (lines content) start (λ k h. refl) in
    (p.robots, parse-rounds u content run, λ a. (λ h. ((adds a).0 h).0, λ h. (adds a).1 (h, refl)))
