-- ===== src/Robots/Stored.antt =====
-- What `ParseRobotsTxt` stores: copies of the rules that it made before their lines were read.
use monocle.Prelude.{
  ◌≡◌, ◌≢◌, refl, sym, ◌∙◌, inl, inr, ap, none, some, List, [], ◌∷◌, ◌++◌, true, arith, Bool-cases,
  Option-cases, All,
}
use mathlib.Core.Path.{subst}
use monocle.Prelude.Text.{Text, codes, eqb, eqb_iff}
use monocle.Prelude.Assoc.{lookup, insert, lookup-insert}
use monocle.Prelude.Unicode.{Unicode, lines}
use monocle.Robots.{
  Rule, RobotsTxt, Parser, empty_rule, user_agent, read_line, rounds, parse, is_allowed,
}
use monocle.Robots.Access.{is_allowed-eq-false_iff}
use monocle.Robots.Steps.{
  agents, directive_other, line_skip, line_other, agents_agent, line_agent, start, parse-rounds,
}

abbrev pub Distinct : List Text → Type 0
Distinct [] = Unit
Distinct (a ∷ others) = All (λ b. b ≢ a) others × Distinct others

-- A state in which the map holds no lines of any rule, and an agent of the rest is new to it.
record IsBlank (p : Parser) : Type 0 where
  blank : (k : Text) (r : Rule) → lookup k p.robots.rules ≡ some r → r ≡ empty_rule
  started : (k : Text) → p.current_rule ≡ none → lookup k p.robots.rules ≡ none

abbrev IsNew : Parser → Text → Type 0
IsNew p a = lookup a p.robots.rules ≡ none

-- The state behind a line for a new agent.
abbrev named : Text → Parser → Parser
named value p = record {
  robots = record { rules = insert value empty_rule p.robots.rules };
  current_agent = value;
  current_rule = some empty_rule;
}

user_agent_new :
    (value : Text) (p : Parser) → IsNew p value → user_agent value p ≡ some (named value p)
unfolding user_agent
user_agent_new value p h = ground arith

named-IsBlank : (value : Text) (p : Parser) → IsBlank p → IsBlank (named value p)
named-IsBlank value p b = record {
  blank = λ k r h. ground (arith, lookup-insert value k empty_rule p.robots.rules, b.blank k r);
  started = λ k h. ground arith;
}

named-IsNew : (value a : Text) (p : Parser) → a ≢ value → IsNew p a → IsNew (named value p) a
named-IsNew value a p ne h =
    ground (arith, lookup-insert value a empty_rule p.robots.rules, eqb_iff value a)

Keeps-IsBlank :
    {p p' : Parser}
    → p'.robots ≡ p.robots
    → (p'.current_rule ≡ none → p.current_rule ≡ none)
    → IsBlank p
    → IsBlank p'
Keeps-IsBlank {p} {p'} e n b = record {
  blank = λ k r h. b.blank k r (rw (← e) h);
  started = λ k h. rw e (b.started k (n h));
}

All-IsNew-named :
    (value : Text) (p : Parser) (l : List Text)
    → All (λ b. b ≢ value) l
    → All (IsNew p) l
    → All (IsNew (named value p)) l
All-IsNew-named value p [] h new = tt
All-IsNew-named value p (a ∷ l) h new =
    (named-IsNew value a p h.0 new.0, All-IsNew-named value p l h.1 new.1)

module _ (u : Unicode) where
  -- Lines that name new agents once each leave every stored rule blank.
  rounds-IsBlank :
      (ls : List Text) (p : Parser)
      → IsBlank p
      → Distinct (agents u ls)
      → All (IsNew p) (agents u ls)
      → (p' : Parser) × (rounds u ls p ≡ some p') × IsBlank p'
  rounds-IsBlank [] p b d new = (p, unfold rounds in refl, b)
  rounds-IsBlank (l ∷ ls) p b d new = elim (Option-cases (read_line u l)) [
    | inl skip ↦
        let (run, same) = line_skip u l ls p skip in
        rw run (rounds-IsBlank ls p b (rw same at d) (rw same at new))
    | inr ((name, value), reads) ↦ elim (Bool-cases (eqb name (codes "user-agent:"))) [
      | inl agent ↦
          let same = agents_agent u l ls p reads agent in
          let d' : Distinct (value ∷ agents u ls) = rw same at d in
          let new' : All (IsNew p) (value ∷ agents u ls) = rw same at new in
          rw (line_agent u l ls p reads agent (user_agent_new value p new'.0)) (
            rounds-IsBlank ls (named value p) (named-IsBlank value p b) d'.1
              (All-IsNew-named value p (agents u ls) d'.0 new'.1))
      | inr other ↦
          let (p', step, kept, n) = directive_other name value p other in
          let (run, same) = line_other u l ls p reads other step in
          let new' : All (IsNew p) (agents u ls) = rw same at new in
          rw run (
            rounds-IsBlank ls p' (Keeps-IsBlank kept n b) (rw same at d)
              (subst (λ r. All (λ a. lookup a r.rules ≡ none) (agents u ls)) (sym kept) new'))
    ]
  ]

start-IsBlank : IsBlank start
unfolding lookup
start-IsBlank = record { blank = λ k r h. ground arith; started = λ k h. refl }

start-IsNew : (l : List Text) → All (IsNew start) l
unfolding lookup
start-IsNew [] = tt
start-IsNew (a ∷ l) = (refl, start-IsNew l)

append-ne-nil : (before : List Text) (x : Text) (after : List Text) → before ++ x ∷ after ≢ []
append-ne-nil [] x after h = cc
append-ne-nil (y ∷ before) x after h = cc

blank_allows :
    (r : RobotsTxt) (agent url : Text)
    → ((k : Text) (rule : Rule) → lookup k r.rules ≡ some rule → rule ≡ empty_rule)
    → is_allowed r agent url ≡ true
blank_allows r agent url blank = elim (Bool-cases (is_allowed r agent url)) [
  | inl h ↦ h
  | inr h ↦
      let (rule, governs, (before, pref, after, rest, e, e')) =
        (is_allowed-eq-false_iff r agent url).0 h in
      let is_blank : rule ≡ empty_rule = elim governs [
        | inl own ↦ blank agent rule own
        | inr star ↦ blank (codes "*") rule star.1
      ] in
      absurd (append-ne-nil before pref after (sym e ∙ ap (λ (x : Rule). x.disallow) is_blank))
]

-- Where the user-agent lines of a robots.txt name distinct agents, the parser drops every `Allow`,
-- `Disallow` and `Crawl-delay` line: each stored rule is empty, and every path is allowed to everyone.
pub parse_drops_lines :
    (u : Unicode) (content : Text)
    → Distinct (agents u (lines content))
    → (r : RobotsTxt) × (parse u content ≡ some r)
      × ((k : Text) (rule : Rule) → lookup k r.rules ≡ some rule → rule ≡ empty_rule)
      × ((agent url : Text) → is_allowed r agent url ≡ true)
parse_drops_lines u content d =
    let (p, run, b) = rounds-IsBlank u (lines content) start start-IsBlank d (start-IsNew _) in
    (
      p.robots,
      parse-rounds u content run,
      b.blank,
      λ agent url. blank_allows p.robots agent url b.blank,
    )
