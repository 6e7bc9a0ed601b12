-- ===== src/Tokenizer.antt =====
-- internal/app/indexer/textHandling/tokenizer.go: `fragmentTokenize` and `entityTokenize`.
-- The matches of the three regular expressions are an argument. Positions are counted in code points,
-- which order and bound the matches as the byte offsets of the source do. `none` is a slice out of range.
pub mod Fragment
pub mod Positions
pub mod Select
pub mod Cover
mod Tests
use monocle.Prelude.{
  ℕ, suc, ◌+◌, ◌-◌, ltb, leb, ◌==◌, if◌then◌else◌, Bool, true, false, not, ◌&&◌, ◌||◌, List, [],
  ◌∷◌, ◌++◌, Option, none, some, map, length, take, drop,
}
use monocle.Prelude.Maybe.{◌>>=◌}
use monocle.Prelude.Text.{Text}
use monocle.Prelude.Suffix.{byte_length}
use monocle.Prelude.Unicode.{Unicode, lower}

pub data TokenType : Type 0 where
  word number whitespace symbol alphanumeric unknown email_addr url_addr ip_v4_addr : TokenType

-- `token`
pub record Token : Type 0 where
  pub type : TokenType
  pub value : Text
  pub start_pos : ℕ
  pub end_pos : ℕ

-- `entityToken`
pub record EntityToken : Type 0 where
  pub token : Token
  pub priority : ℕ

-- `entityRule`, its regular expression as the function that finds all matches in a text.
pub record EntityRule : Type 0 where
  pub find_all : Text → List (ℕ × ℕ)
  pub token_type : TokenType
  pub priority : ℕ

-- `==` on the types that runes have.
abbrev pub same_type : TokenType → TokenType → Bool
same_type word word = true
same_type number number = true
same_type whitespace whitespace = true
same_type symbol symbol = true
same_type alphanumeric alphanumeric = true
same_type unknown unknown = true
same_type email_addr email_addr = true
same_type url_addr url_addr = true
same_type ip_v4_addr ip_v4_addr = true
same_type _ _ = false

-- `shouldCombineNow` and `isContinuingAlphanumeric`
abbrev pub should_combine : TokenType → TokenType → Bool
should_combine word number = true
should_combine number word = true
should_combine _ _ = false

abbrev pub is_continuing : TokenType → TokenType → Bool
is_continuing alphanumeric word = true
is_continuing alphanumeric number = true
is_continuing _ _ = false

abbrev pub extends : TokenType → TokenType → Bool
extends current r = same_type r current || should_combine current r || is_continuing current r

abbrev pub extended : TokenType → TokenType → TokenType
extended current r = if should_combine current r then alphanumeric else current

module _ (u : Unicode) where
  -- `getRuneType`
  unfoldable pub rune_type : ℕ → TokenType
  rune_type r =
      if u.is_letter r
      then word
      else if u.is_digit r
      then number
      else if u.is_space r
      then whitespace
      else if u.is_punct_or_symbol r
      then symbol
      else unknown

  module _ (global : ℕ) where
    -- A token that is cut off by the next rune; `startPos` is always 0 in the loop.
    abbrev pub cut_token : TokenType → Text → Token
    cut_token current buffer = record {
      type = current;
      value = buffer;
      start_pos = global + 0;
      end_pos = global + 0 + byte_length buffer;
    }

    -- The token behind the loop.
    abbrev pub last_token : TokenType → Text → Token
    last_token current buffer = record {
      type = current;
      value = buffer;
      start_pos = 0;
      end_pos = 0 + byte_length buffer;
    }

    -- The loop over the runes, from its buffer and the buffer's type, with what follows it.
    unfoldable pub scan : TokenType → Text → Text → List Token
    scan current [] [] = []
    scan current (b ∷ buffer) [] = last_token current (b ∷ buffer) ∷ []
    scan current [] (r ∷ runes) = scan (rune_type r) (r ∷ []) runes
    scan current (b ∷ buffer) (r ∷ runes) =
        let more = scan (extended current (rune_type r)) (b ∷ buffer ++ r ∷ []) runes in
        let next = cut_token current (b ∷ buffer) ∷ scan (rune_type r) (r ∷ []) runes in
        if extends current (rune_type r) then more else next

    unfoldable pub fragment_tokenize : Text → List Token
    fragment_tokenize fragment = scan unknown [] (lower u fragment)

-- `input[a:b]`
unfoldable pub slice : Text → ℕ → ℕ → Option Text
slice s a b = if leb a b && leb b (length s) then some (take (b - a) (drop a s)) else none

unfoldable pub matches : EntityRule → Text → List (ℕ × ℕ) → Option (List EntityToken)
matches rule input [] = some []
matches rule input ((start, end) ∷ found) = do
  value ← slice input start end
  rest ← matches rule input found
  some (
      record {
        token = record { type = rule.token_type; value = value; start_pos = start; end_pos = end };
        priority = rule.priority;
      }
      ∷ rest)

-- The first loop.
unfoldable pub potential : List EntityRule → Text → Option (List EntityToken)
potential [] input = some []
potential (rule ∷ rules) input = do
  here ← matches rule input (rule.find_all input)
  rest ← potential rules input
  some (here ++ rest)

-- The order of `sort.SliceStable`; the last test compares the negated lengths of two matches with
-- the same start.
unfoldable pub before : EntityToken → EntityToken → Bool
before a b =
    if not (a.token.start_pos == b.token.start_pos)
    then ltb a.token.start_pos b.token.start_pos
    else if not (a.priority == b.priority)
    then ltb b.priority a.priority
    else ltb a.token.end_pos b.token.end_pos

-- A stable sort: an element goes behind those that it is not before.
unfoldable pub insert_sorted : EntityToken → List EntityToken → List EntityToken
insert_sorted a [] = a ∷ []
insert_sorted a (b ∷ l) = if before b a then b ∷ insert_sorted a l else a ∷ b ∷ l

unfoldable pub sort_stable : List EntityToken → List EntityToken
sort_stable [] = []
sort_stable (a ∷ l) = insert_sorted a (sort_stable l)

-- The selection loop. `lastSelectedPos` starts at -1 in the source; no position is below 0.
unfoldable pub select : ℕ → List EntityToken → List Token
select last [] = []
select last (pt ∷ rest) =
    let taken = pt.token ∷ select pt.token.end_pos rest in
    let skipped = select last rest in if leb last pt.token.start_pos then taken else skipped

module _ (u : Unicode) (input : Text) where
  -- The text between two entities.
  unfoldable pub gap : ℕ → ℕ → Option (List Token)
  gap current start =
      if ltb current start
      then (do fragment ← slice input current start; some (fragment_tokenize u current fragment))
      else some []

  -- The last loop, with what follows it.
  unfoldable pub weave : ℕ → List Token → Option (List Token)
  weave current [] = gap current (length input)
  weave current (entity ∷ entities) = do
    between ← gap current entity.start_pos
    rest ← weave entity.end_pos entities
    some (between ++ entity ∷ rest)

unfoldable pub entity_tokenize : Unicode → List EntityRule → Text → Option (List Token)
entity_tokenize u rules input = do
  all ← potential rules input
  weave u input 0 (select 0 (sort_stable all))
