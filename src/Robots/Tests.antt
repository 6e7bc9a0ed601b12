-- ===== src/Robots/Tests.antt =====
-- Runs of the robots.txt parser, and its theorems at concrete texts.
use monocle.Prelude.{◌≡◌, ◌≢◌, refl, ◌↔◌, none, some, [], ◌∷◌, true, false, All}
use monocle.Prelude.Text.{Text, codes, eqb, has_prefix}
use monocle.Prelude.Assoc.{lookup, insert}
use monocle.Prelude.Unicode.{
  ascii, lines, lines_from, trim_left, trim_space, fields_from, fields, atoi, scan_uint, pos,
}
use monocle.Robots.{
  Rule, RobotsTxt, empty_rule, user_agent, update_rule, directive, words_of, read_line, round,
  rounds, parse, any_prefix, allowed_by, is_allowed,
}
use monocle.Robots.Access.{IsForbidden, is_allowed-eq-false_iff}
use monocle.Robots.Steps.{agents}
use monocle.Robots.Stored.{Distinct, parse_drops_lines}
use monocle.Robots.Names.{parse_names}

program : Unit {0}
unfolding eqb has_prefix lookup insert lines lines_from trim_left trim_space fields_from fields atoi
    scan_uint user_agent update_rule directive words_of read_line round rounds parse any_prefix
    allowed_by is_allowed agents
program = tt

abbrev newline : Text
newline = b'\n' ∷ []

abbrev closed : Text
closed = codes "User-agent: *\n# all\nDisallow: /private\nCrawl-delay: 5\n"

abbrev repeated : Text
repeated = codes "User-agent: *\nDisallow: /private\nCrawl-delay: 5\nUser-agent: *"

-- The lines of the only group are lost.
closed_lost : parse ascii closed ≡ some (record { rules = (codes "*", empty_rule) ∷ [] })
unfolding program
closed_lost = refl

abbrev private_rule : Rule
private_rule = record { allow = []; disallow = codes "/private" ∷ []; delay = pos 5 }

-- A second line for the same agent stores what was read before it.
repeated_kept : parse ascii repeated ≡ some (record { rules = (codes "*", private_rule) ∷ [] })
unfolding program
repeated_kept = refl

abbrev private_robots : RobotsTxt
private_robots = record { rules = (codes "*", private_rule) ∷ [] }

refuses_private : is_allowed private_robots (codes "bot") (codes "/private/x") ≡ false
unfolding program
refuses_private = refl

is_allowed-eq-false_iff_example :
    (is_allowed private_robots (codes "bot") (codes "/private/x") ≡ false)
    ↔ IsForbidden private_robots (codes "bot") (codes "/private/x")
is_allowed-eq-false_iff_example =
    is_allowed-eq-false_iff private_robots (codes "bot") (codes "/private/x")

agents-closed : agents ascii (lines closed) ≡ codes "*" ∷ []
unfolding program
agents-closed = refl

closed-Distinct : Distinct (agents ascii (lines closed))
closed-Distinct = rw agents-closed (tt, tt)

parse_drops_lines_example :
    (r : RobotsTxt) × (parse ascii closed ≡ some r)
    × ((k : Text) (rule : Rule) → lookup k r.rules ≡ some rule → rule ≡ empty_rule)
    × ((agent url : Text) → is_allowed r agent url ≡ true)
parse_drops_lines_example = parse_drops_lines ascii closed closed-Distinct

parse_names_example :
    (r : RobotsTxt) × (parse ascii repeated ≡ some r)
    × ((a : Text) → (lookup a r.rules ≡ none) ↔ All (λ b. b ≢ a) (agents ascii (lines repeated)))
parse_names_example = parse_names ascii repeated
