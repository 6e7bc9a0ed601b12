-- ===== src/Crawler/State.antt =====
-- internal/app/scraper/scraper.go: the state of the scraper, its tasks, and the interfaces of what it calls.
use monocle.Prelude.{
  ℕ, zero, suc, leb, ◌&&◌, Bool, true, false, Option, none, some, List, [], ◌∷◌, ◌++◌, ◌⊎◌,
}
use monocle.Prelude.Assoc.{lookup}
use monocle.Prelude.Text.{Text, codes}
use monocle.Prelude.Unicode.{ℤ, pos, negsuc}
use monocle.Robots.{RobotsTxt}
use monocle.Indexer.{Passage}
use monocle.LruCache.{LruCache}
use monocle.Page.{HtmlToken, LinkToken}

-- What the network gives to a task: `FetchRobotsTxt`, without a value for an error or an empty text, `getSitemapURLs`,
-- the message on the left, and the tokens of the page, without a value for an error or an empty page. Then when the
-- context is seen to be done: before the task, after the sitemap, and while the page is read.
pub record Network (U : Type 0) : Type 0 where
  pub fetch_robots : U → Option Text
  pub get_sitemap_urls : Text → Text ⊎ List Text
  pub tokens : U → Option (List HtmlToken)
  pub is_done_before : Bool
  pub is_done_after : Bool
  pub is_done : ℕ → Bool

-- `indexer`, `putDocReq` and encoding/gob. `none`, or `false` after a write, is an error.
pub record Services (U Db Vec : Type 0) : Type 0 where
  pub hash : Text → Text
  pub is_crawled_content : Text → List Passage → Db → Db × Option Bool
  pub put_doc_req : Text → Option Vec
  pub handle_document_words : Text → Text → Vec → List Passage → Db → Db × Bool
  pub save_urls_to_bank : Text → Text → Db → Db × Bool
  pub get_urls_by_hash : Text → Db → Option Text
  pub encode : List (LinkToken U) → Option Text
  pub decode : Text → Option (List (LinkToken U))

-- `ConfigData`
pub record ConfigData : Type 0 where
  pub depth : ℕ
  pub only_same_domain : Bool

-- The arguments of `ScrapeWithContext`.
pub record Task (U : Type 0) : Type 0 where
  pub url : U
  pub rules : Option RobotsTxt
  pub depth : ℕ

-- What is given to `Submit`: by `Run`, and for a link.
pub data Job (U : Type 0) : Type 0 where
  start_job : U → Job U
  link_job : Task U → Job U

-- The fields of `WebScraper` that change; `rl_map` holds the rates of the limiters.
pub record WebScraper (U Db : Type 0) : Type 0 where
  pub visited : List (Text × ℕ)
  pub lru : LruCache (List (LinkToken U))
  pub db : Db
  pub rl_map : List (Text × ℤ)

-- `BaseXMLPageError`
abbrev pub base_xml_page_error : Text
base_xml_page_error = codes "sitemap page"

-- `DefaultDelay`
abbrev pub default_delay : ℤ
default_delay = pos 3

unfoldable pub is_positive : ℤ → Bool
is_positive (pos zero) = false
is_positive (pos (suc n)) = true
is_positive (negsuc n) = false

-- `lim == nil || lim.R == DefaultDelay`
unfoldable pub is_default : Option ℤ → Bool
is_default none = true
is_default (some (pos n)) = leb n 3 && leb 3 n
is_default (some (negsuc n)) = false

unfoldable pub delay_of : Text → RobotsTxt → ℤ
delay_of agent robots = elim (lookup agent robots.rules) [ none ↦ pos 0 | some rule ↦ rule.delay ]

-- The texts of the passages, one after another.
unfoldable pub full_text : List Passage → Text
full_text [] = []
full_text (p ∷ ps) = p.text ++ full_text ps
