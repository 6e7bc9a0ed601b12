-- ===== src/Crawler/Offers.antt =====
-- internal/app/scraper/sitemapHandling.go: robots.txt and the sitemap of a page.
use monocle.Prelude.{
  not, ◌&&◌, Option, none, some, List, [], ◌∷◌, ◌++◌, if◌then◌else◌, ◌⊎◌, inl, inr,
}
use monocle.Prelude.Maybe.{◌>>=◌}
use monocle.Prelude.Assoc.{lookup, insert}
use monocle.Prelude.Text.{Text, codes, eqb}
use monocle.Prelude.Suffix.{trim_suffix}
use monocle.Prelude.Unicode.{Unicode}
use monocle.Robots.{parse}
use monocle.Urls.{UrlLibrary, contains_text, make_absolute_url, is_same_origin}
use monocle.Page.{LinkToken}
use monocle.Crawler.State.{
  Network, Services, ConfigData, WebScraper, base_xml_page_error, default_delay, is_positive,
  is_default, delay_of,
}

module _ (U Db Vec : Type 0) (urls : UrlLibrary U) (u : Unicode) (services : Services U Db Vec)
    (cfg : ConfigData) (net : Network U) where
  -- `if ws.rlMap[host] == nil { ws.rlMap[host] = NewRateLimiter(DefaultDelay) }`
  unfoldable pub start_limiter : U → WebScraper U Db → WebScraper U Db
  start_limiter uri ws = elim (lookup (urls.host uri) ws.rl_map) [
    | none ↦ record ws { rl_map = insert (urls.host uri) default_delay ws.rl_map }
    | some rate ↦ ws
  ]

  -- `fetchPageRulesAndOffers`, up to its return; the rules that it parses are not returned.
  unfoldable pub fetch_page_rules : U → WebScraper U Db → Option (WebScraper U Db)
  fetch_page_rules cur ws = elim (net.fetch_robots cur) [
    | none ↦ some ws
    | some r ↦ do
      robots ← parse u r
      let delay = delay_of (codes "*") robots
      (if is_default (lookup (urls.host cur) ws.rl_map) && is_positive delay
          then some (record ws { rl_map = insert (urls.host cur) delay ws.rl_map })
          else some (start_limiter cur ws))
  ]

  -- `haveSitemap`: the address of the sitemap.
  unfoldable pub sitemap_url : U → Text
  sitemap_url url =
      if contains_text (urls.to_string url) (codes "sitemap")
      then urls.to_string url
      else trim_suffix (urls.to_string url) (codes "/") ++ codes "/sitemap.xml"

  -- `processSitemap`: the items that are absolute https addresses.
  unfoldable pub process_items : U → List Text → List Text
  process_items base_url [] = []
  process_items base_url (item ∷ sitemap) =
      let rest = process_items base_url sitemap in
      elim (make_absolute_url U urls u item base_url) [
        | none ↦ rest
        | some abs ↦ if eqb abs [] then rest else abs ∷ rest
      ]

  unfoldable pub have_sitemap : U → Text ⊎ List Text
  have_sitemap url = elim (net.get_sitemap_urls (sitemap_url url)) [
    | inl err ↦ inl err
    | inr sitemap ↦ inr (process_items url sitemap)
  ]

  -- The loop of `prepareSitemapLinks`.
  unfoldable pub sitemap_links : U → List Text → List (LinkToken U)
  sitemap_links current [] = []
  sitemap_links current (link ∷ links) =
      let rest = sitemap_links current links in
      elim (urls.parse link) [
        | none ↦ rest
        | some parsed ↦
            if not (is_same_origin U urls u parsed current) && cfg.only_same_domain
            then rest
            else record { link = parsed; same_domain = is_same_origin U urls u parsed current }
              ∷ rest
      ]

  -- The links, and the message of the error, which is always there.
  unfoldable pub prepare_sitemap_links : U → List (LinkToken U) × Text
  prepare_sitemap_links current = elim (have_sitemap current) [
    | inl err ↦ ([], err)
    | inr found ↦ (sitemap_links current found, base_xml_page_error)
  ]
