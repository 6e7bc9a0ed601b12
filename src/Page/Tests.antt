-- ===== src/Page/Tests.antt =====
-- A page with an advertisement and a heading.
use monocle.Prelude.{
  All, length, ℕ, ◌≡◌, refl, none, some, List, [], ◌∷◌, ◌++◌, if◌then◌else◌, true, false, ◌≢◌,
  arith, ap,
}
use monocle.Prelude.Text.{Text, codes, eqb, has_prefix}
use monocle.Prelude.Suffix.{has_suffix, trim_suffix, trim_prefix}
use monocle.Prelude.Assoc.{lookup}
use monocle.Prelude.Unicode.{ascii, trim_left, trim_space}
use monocle.Indexer.{Passage}
use monocle.Urls.{
  UrlLibrary, contains_text, merge_slashes, make_absolute_url, normalize_url, is_same_origin,
}
use monocle.Page.{
  HtmlToken, start_tag, end_tag, text, other_token, LinkToken, Reader, start, step, is_garbage,
  any_garbage, first_href, is_skipped_element, pop_header, pop_garbage, end_element, add_passage,
  may_follow, add_link, follow, start_element, read_tokens, parse_html_stream,
}
use monocle.Page.Follow.{IsFollowed, IsText}
use monocle.Page.Read.{HasName, parse_html_stream-IsFollowed}
use monocle.Page.Nested.{read_tokens-end_tag, read_on}

program : Unit {0}
unfolding eqb has_prefix has_suffix trim_suffix trim_prefix lookup trim_left trim_space
    contains_text merge_slashes make_absolute_url normalize_url is_same_origin step is_garbage
    any_garbage first_href is_skipped_element pop_header pop_garbage end_element add_passage
    may_follow add_link follow start_element read_tokens parse_html_stream
program = tt

-- A library that leaves its URLs as they are.
abbrev plain : UrlLibrary Text
plain = record {
  parse = λ t. if eqb t (codes "%") then none else some t;
  resolve_reference = λ base t. if has_prefix t (codes "/") then base ++ t else t;
  without_fragment = λ t. t;
  scheme = λ t. if has_prefix t (codes "https://") then codes "https" else codes "http";
  host = λ t. codes "a.b";
  hostname = λ t. codes "a.b";
  path = λ t. t;
  encoded_query = λ t. [];
  to_string = λ t. t;
}

abbrev base : Text
base = codes "https://a.b"

abbrev advertisement : List HtmlToken
advertisement = start_tag (codes "div") [] ∷ text (codes "buy") ∷ []

abbrev page : List HtmlToken
page =
    start_tag (codes "H1") []
      ∷ text (codes " Hi ")
      ∷ end_tag (codes "h1")
      ∷ start_tag (codes "div") ((codes "class", codes "top-ad") ∷ [])
      ∷ advertisement
    ++ end_tag (codes "DIV")
      ∷ text (codes "more")
      ∷ end_tag (codes "div")
      ∷ start_tag (codes "a") ((codes "href", codes "/c") ∷ [])
      ∷ other_token
      ∷ []

page_read :
    parse_html_stream Text plain ascii base none [] 1 (λ n. false) page
    ≡ some (
      record { link = codes "https://a.b/c"; same_domain = true } ∷ [],
      record { text = codes "Hi"; kind = b'h' } ∷ record { text = codes "more"; kind = b'b' } ∷ [],
    )
unfolding program
page_read = refl

heading_named : codes "h1" ≢ []
heading_named e = omega (arith, ap length e)

div_named : (codes "div" ≢ []) × (codes "DIV" ≢ [])
div_named = (λ e. omega (arith, ap length e), λ e. omega (arith, ap length e))

named : All HasName page
named = (
  refl,
  (
    refl,
    (
      heading_named,
      (refl, (refl, (refl, (div_named.1, (refl, (div_named.0, (refl, (refl, tt)))))))),
    ),
  ),
)

parse_html_stream-IsFollowed_example :
    (found : List (LinkToken Text)) × (passages : List Passage) × (parse_html_stream Text plain
        ascii base none [] 1
        (λ n. false)
        page
      ≡ some (found, passages))
    × All (IsFollowed Text plain ascii base none [] 1) found
    × All (IsText Text plain ascii base none [] 1) passages
parse_html_stream-IsFollowed_example =
    parse_html_stream-IsFollowed Text plain ascii base none [] 1 (λ n. false) page named

abbrev opened : Reader Text
opened = record (start Text plain ascii base none [] 1) { garbage_tag_stack = codes "div" ∷ [] }

read_tokens-end_tag_example :
    (tags : List (ℕ × ℕ)) × (read_on Text plain ascii base none [] 1 0
        (advertisement ++ end_tag (codes "DIV") ∷ text (codes "more") ∷ [])
        opened
      ≡ read_on Text plain ascii base none [] 1 3
          (text (codes "more") ∷ [])
          (record opened { tag_stack = tags; garbage_tag_stack = [] }))
read_tokens-end_tag_example =
    read_tokens-end_tag Text plain ascii base none [] 1 (codes "DIV") 0 advertisement
      (text (codes "more") ∷ []) [] opened div_named.1 refl (refl, (refl, tt)) (refl, (refl, tt))
