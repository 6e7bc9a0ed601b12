-- ===== src/Page.antt =====
-- internal/app/scraper/htmlHandling.go: `parseHTMLStream`. The tokens of package html are an argument, up to the end of
-- the text or an error; the times at which the context is seen to be done are another. Logging is left out. A stack is
-- a list with its top at the head. `none` is an index out of range.
pub mod Follow
pub mod Read
pub mod Nested
mod Tests
use monocle.Prelude.{
  ℕ, zero, suc, ◌+◌, ◌%◌, ltb, ◌==◌, ◌&&◌, ◌||◌, Bool, true, false, Option, none, some, List, [],
  ◌∷◌, ◌++◌, length, get_elem?, if◌then◌else◌,
}
use monocle.Prelude.Maybe.{◌>>=◌}
use monocle.Prelude.Assoc.{lookup}
use monocle.Prelude.Text.{Text, codes, eqb}
use monocle.Prelude.Unicode.{Unicode, lower, trim_space}
use monocle.Robots.{RobotsTxt, is_allowed}
use monocle.Indexer.{Passage}
use monocle.Urls.{UrlLibrary, contains_text, make_absolute_url, normalize_url, is_same_origin}

-- The tokens of package html that are told apart.
pub data HtmlToken : Type 0 where
  start_tag : Text → List (Text × Text) → HtmlToken
  end_tag : Text → HtmlToken
  text : Text → HtmlToken
  other_token : HtmlToken

-- `linkToken`
pub record LinkToken (U : Type 0) : Type 0 where
  pub link : U
  pub same_domain : Bool

-- The variables of the loop.
pub record Reader (U : Type 0) : Type 0 where
  pub tag_stack : List (ℕ × ℕ)
  pub garbage_tag_stack : List Text
  pub links : List (LinkToken U)
  pub visit : List (LinkToken U)
  pub passages : List Passage

-- `userAgent`
abbrev pub user_agent_name : Text
user_agent_name =
    codes "Mozilla/5.0 (Windows NT 10.0; Win64; x64; rv:140.0) Gecko/20100101 Firefox/140.0"

-- The test of an attribute of a `div`.
unfoldable pub is_garbage : Unicode → Text × Text → Bool
is_garbage u (key, val) =
    (eqb key (codes "class") || eqb key (codes "id"))
    && (contains_text (lower u val) (codes "ad")
        || contains_text (lower u val) (codes "banner")
        || contains_text (lower u val) (codes "promo"))

-- The loop over the attributes of a `div`, up to its `break`.
unfoldable pub any_garbage : Unicode → List (Text × Text) → Bool
any_garbage u [] = false
any_garbage u (attr ∷ attrs) = is_garbage u attr || any_garbage u attrs

-- The value of the first `href`, where the loop over the attributes of an `a` ends.
unfoldable pub first_href : Unicode → List (Text × Text) → Option Text
first_href u [] = none
first_href u ((key, val) ∷ attrs) =
    if eqb (lower u key) (codes "href") then some val else first_href u attrs

-- The elements that are left out with what is in them.
unfoldable pub is_skipped_element : Text → Bool
is_skipped_element name =
    eqb name (codes "script")
    || eqb name (codes "style")
    || eqb name (codes "iframe")
    || eqb name (codes "aside")
    || eqb name (codes "nav")
    || eqb name (codes "footer")

module _ (U : Type 0) where
  abbrev pub push_garbage : Text → Reader U → Reader U
  push_garbage name r = record r { garbage_tag_stack = name ∷ r.garbage_tag_stack }

  -- The end of an element.
  unfoldable pub pop_header : Text → Reader U → Reader U
  pop_header name r = elim r.tag_stack [
    | [] ↦ r
    | (t, level) ∷ stack ↦ elim (get_elem? name 1) [
      | none ↦ r
      | some c ↦ if level == c then record r { tag_stack = stack } else r
    ]
  ]

  unfoldable pub pop_garbage : Text → Reader U → Reader U
  pop_garbage name r = elim r.garbage_tag_stack [
    | [] ↦ r
    | top ∷ stack ↦ if eqb top name then record r { garbage_tag_stack = stack } else r
  ]

  unfoldable pub end_element : Text → Reader U → Option (Reader U)
  end_element name r = do
    c ← get_elem? name 0
    some (pop_garbage name (if c == b'h' then pop_header name r else r))

  -- A text outside of the elements that are left out.
  unfoldable pub add_passage : Unicode → Text → Reader U → Reader U
  add_passage u t r =
      let trimmed = trim_space u t in
      let kind : ℕ = elim r.tag_stack [ [] ↦ b'b' | top ∷ stack ↦ b'h' ] in
      if eqb trimmed []
      then r
      else record r { passages = r.passages ++ (record { text = trimmed; kind = kind } ∷ []) }

module _ (U : Type 0) (urls : UrlLibrary U) (u : Unicode) (base_url : U) (rules : Option RobotsTxt)
    (visited : List (Text × ℕ)) (current_deep : ℕ) where
  -- `rules == nil || rules.IsAllowed(userAgent, uri.Path)`
  unfoldable pub may_follow : U → Bool
  may_follow uri = elim rules [
    | none ↦ true
    | some robots ↦ is_allowed robots user_agent_name (urls.path uri)
  ]

  -- A parsed link and its normal form.
  unfoldable pub add_link : Text → U → Reader U → Reader U
  add_link normalized uri r =
      let token : LinkToken U = record {
        link = uri;
        same_domain = is_same_origin U urls u uri base_url;
      } in
      elim (may_follow uri) [
        | false ↦ r
        | true ↦ elim (lookup normalized visited) [
          | none ↦ record r { links = r.links ++ (token ∷ []) }
          | some depth ↦
              if ltb current_deep depth then record r { visit = r.visit ++ (token ∷ []) } else r
        ]
      ]

  -- The `href` of an `a`, up to the errors that end it.
  unfoldable pub follow : Text → Reader U → Reader U
  follow val r = elim (make_absolute_url U urls u val base_url) [
    | none ↦ r
    | some link ↦ if eqb link [] then r else (elim (normalize_url U urls u link) [
      | none ↦ r
      | some normalized ↦ elim (urls.parse link) [ none ↦ r | some uri ↦ add_link normalized uri r ]
    ])
  ]

  unfoldable pub start_element : Text → List (Text × Text) → Reader U → Reader U
  start_element name attrs r =
      if eqb name (codes "h1")
      then record r { tag_stack = (b'h', b'1') ∷ r.tag_stack }
      else if eqb name (codes "h2")
      then record r { tag_stack = (b'h', b'2') ∷ r.tag_stack }
      else if eqb name (codes "div")
      then (if any_garbage u attrs then push_garbage U name r else r)
      else if eqb name (codes "a")
      then (elim (first_href u attrs) [ none ↦ r | some val ↦ follow val r ])
      else if is_skipped_element name
      then push_garbage U name r
      else r

  -- The `switch` over a token.
  unfoldable pub step : HtmlToken → Reader U → Option (Reader U)
  step (start_tag name attrs) r = elim r.garbage_tag_stack [
    | [] ↦ some (start_element (lower u name) attrs r)
    | top ∷ stack ↦ some r
  ]
  step (end_tag name) r = end_element U (lower u name) r
  step (text t) r = elim r.garbage_tag_stack [
    | [] ↦ some (add_passage U u t r)
    | top ∷ stack ↦ some r
  ]
  step other_token r = some r

  -- The loop, from the value of `tokenCount`; every tenth round asks the context.
  unfoldable pub read_tokens : (ℕ → Bool) → ℕ → List HtmlToken → Reader U → Option (Reader U)
  read_tokens is_done token_count [] r = some r
  read_tokens is_done token_count (token ∷ tokens) r =
      elim (((token_count + 1) % 10 == 0) && is_done (token_count + 1)) [
        | true ↦ some r
        | false ↦ elim (step token r) [
          | none ↦ none
          | some next ↦ read_tokens is_done (token_count + 1) tokens next
        ]
      ]

  abbrev pub start : Reader U
  start = record { tag_stack = []; garbage_tag_stack = []; links = []; visit = []; passages = [] }

  unfoldable pub parse_html_stream :
      (ℕ → Bool) → List HtmlToken → Option (List (LinkToken U) × List Passage)
  parse_html_stream is_done tokens = do
    r ← read_tokens is_done 0 tokens start
    some (r.links ++ r.visit, r.passages)
