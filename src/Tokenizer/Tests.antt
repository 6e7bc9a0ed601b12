-- ===== src/Tokenizer/Tests.antt =====
-- Runs of the tokenizer, and its theorems at concrete texts.
use mathlib.Core.List.{Perm}
use monocle.Prelude.{ℕ, ◌≡◌, refl, some, List, [], ◌∷◌, map, All, arith}
use monocle.Prelude.Text.{Text, codes}
use monocle.Prelude.Suffix.{bytes, utf8}
use monocle.Prelude.Unicode.{ascii, lower}
use monocle.Tokenizer.{
  number, whitespace, symbol, alphanumeric, email_addr, url_addr, Token, EntityToken, EntityRule,
  rune_type, scan, fragment_tokenize, slice, matches, potential, before, insert_sorted, sort_stable,
  select, gap, weave, entity_tokenize,
}
use monocle.Tokenizer.Fragment.{
  spelled, IsLexical, spelled-fragment_tokenize, fragment_tokenize-IsLexical,
}
use monocle.Tokenizer.Positions.{StartsTogether, fragment_tokenize-StartsTogether}
use monocle.Tokenizer.Select.{IsDisjoint, IsSettled, select-sort_stable}
use monocle.Tokenizer.Cover.{entity_tokenize_covers}

program : Unit {0}
unfolding bytes utf8 rune_type scan fragment_tokenize slice matches potential before insert_sorted
    sort_stable select gap weave entity_tokenize
program = tt

abbrev page : Text
page = codes "Go1.2 at a@b.io"

-- The types and texts of the tokens of "Go1.2 ".
parts :
    map (λ t. t.type) (fragment_tokenize ascii 0 (codes "Go1.2 "))
    ≡ alphanumeric ∷ symbol ∷ number ∷ whitespace ∷ []
unfolding program
parts = refl

-- An expression that finds the address at the end of `page`, and one that finds a part of it.
abbrev rules : List EntityRule
rules =
    record { find_all = λ s. (9, 15) ∷ []; token_type = email_addr; priority = 2 }
    ∷ record { find_all = λ s. (9, 10) ∷ (11, 15) ∷ []; token_type = url_addr; priority = 1 }
    ∷ []

abbrev found : List EntityToken
found =
    record {
      token = record { type = url_addr; value = codes "b.io"; start_pos = 11; end_pos = 15 };
      priority = 1;
    }
    ∷ record {
      token = record { type = email_addr; value = codes "a@b.io"; start_pos = 9; end_pos = 15 };
      priority = 2;
    }
    ∷ []

keeps_whole : map (λ t. t.type) (select 0 (sort_stable found)) ≡ email_addr ∷ []
unfolding program
keeps_whole = refl

ascii_fixed : (c : ℕ) → ascii.to_lower (ascii.to_lower c) ≡ ascii.to_lower c
ascii_fixed c = ground arith

spelled-fragment_tokenize_example :
    spelled (fragment_tokenize ascii 4 (codes "Ab 12")) ≡ lower ascii (codes "Ab 12")
spelled-fragment_tokenize_example = spelled-fragment_tokenize ascii 4 (codes "Ab 12")

fragment_tokenize-IsLexical_example : IsLexical ascii (fragment_tokenize ascii 4 (codes "Ab12 c"))
fragment_tokenize-IsLexical_example = fragment_tokenize-IsLexical ascii 4 (codes "Ab12 c")

fragment_tokenize-StartsTogether_example :
    StartsTogether 4 (fragment_tokenize ascii 4 (codes "Ab 12"))
fragment_tokenize-StartsTogether_example = fragment_tokenize-StartsTogether ascii 4 (codes "Ab 12")

select-sort_stable_example :
    Perm (sort_stable found) found
    × IsDisjoint 0 (select 0 (sort_stable found))
    × All (IsSettled (select 0 (sort_stable found))) (sort_stable found)
select-sort_stable_example = select-sort_stable found

entity_tokenize_covers_example :
    (ts : List Token) × (entity_tokenize ascii rules page ≡ some ts)
    × (lower ascii (spelled ts) ≡ lower ascii page)
entity_tokenize_covers_example = entity_tokenize_covers ascii rules page ascii_fixed (omega arith)
