-- ===== src/Urls.antt =====
-- internal/app/scraper/urlHandling.go. Package net/url is a parameter.
pub mod Absolute
use monocle.Prelude.{
  ℕ, ◌==◌, ◌||◌, not, Bool, true, false, Option, none, some, List, [], ◌∷◌, ◌++◌, if◌then◌else◌,
}
use monocle.Prelude.Maybe.{◌>>=◌}
use monocle.Prelude.Text.{Text, codes, eqb, has_prefix}
use monocle.Prelude.Suffix.{trim_suffix, trim_prefix}
use monocle.Prelude.Unicode.{Unicode, lower, trim_space}

-- What the scraper uses of package net/url: `url.Parse`, without a value on an error, `ResolveReference`, the field
-- `Fragment`, and the parts of a URL; `encoded_query` is `Query().Encode()`.
pub record UrlLibrary (U : Type 0) : Type 0 where
  pub parse : Text → Option U
  pub resolve_reference : U → U → U
  pub without_fragment : U → U
  pub scheme : U → Text
  pub host : U → Text
  pub hostname : U → Text
  pub path : U → Text
  pub encoded_query : U → Text
  pub to_string : U → Text

-- `strings.Contains`
unfoldable pub contains_text : Text → Text → Bool
contains_text [] sub = has_prefix [] sub
contains_text (c ∷ s) sub = has_prefix (c ∷ s) sub || contains_text s sub

-- `strings.ReplaceAll(path, "//", "/")`
unfoldable pub merge_slashes : Text → Text
merge_slashes [] = []
merge_slashes (c ∷ []) = c ∷ []
merge_slashes (c ∷ d ∷ s) =
    let both = merge_slashes s in
    let one = merge_slashes (d ∷ s) in
    if c == b'/' then (if d == b'/' then b'/' ∷ both else c ∷ one) else c ∷ one

module _ (U : Type 0) (urls : UrlLibrary U) (u : Unicode) where
  -- `none` is an error.
  unfoldable pub make_absolute_url : Text → U → Option Text
  make_absolute_url raw_url base =
      let raw = trim_space u raw_url in
      if eqb raw []
      then none
      else if has_prefix raw (codes "#") || has_prefix (lower u raw) (codes "javascript:")
      then none
      else (do
        parsed ← urls.parse raw
        let resolved = urls.without_fragment (urls.resolve_reference base parsed)
        if eqb (urls.scheme resolved) (codes "https") then some (urls.to_string resolved) else none)

  unfoldable pub normalize_url : Text → Option Text
  normalize_url raw_url = do
    p ← urls.parse raw_url
    let host = trim_prefix (lower u (urls.hostname p)) (codes "www.")
    let path = urls.path p
    let merged = if contains_text path (codes "//") then merge_slashes path else path
    let trimmed = trim_suffix merged (codes "/")
    let query = urls.encoded_query p
    some (host ++ (trimmed ++ (if eqb query [] then [] else (b'?' ∷ query))))

  unfoldable pub is_same_origin : U → U → Bool
  is_same_origin raw_url base = contains_text (urls.hostname base) (urls.hostname raw_url)
