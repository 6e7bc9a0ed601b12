-- ===== src/Crawler/Sitemap.antt =====
-- A page with a sitemap.
use monocle.Prelude.{◌≡◌, refl, inl, inr, leb, ◌&&◌, ◌||◌, Bool-cases, Option-cases, some, List, []}
use monocle.Prelude.Assoc.{lookup, insert}
use monocle.Prelude.Text.{Text, codes, eqb_refl}
use monocle.Prelude.Unicode.{Unicode}
use monocle.Robots.Names.{parse_names}
use monocle.Urls.{UrlLibrary, normalize_url}
use monocle.Crawler.{scrape_with_context}
use monocle.Crawler.Offers.{
  start_limiter, fetch_page_rules, sitemap_url, have_sitemap, prepare_sitemap_links,
}
use monocle.Crawler.State.{
  Network, Services, ConfigData, Task, WebScraper, base_xml_page_error, is_default, is_positive,
  delay_of,
}

module _ (U Db Vec : Type 0) (urls : UrlLibrary U) (u : Unicode) (services : Services U Db Vec)
    (cfg : ConfigData) (net : Network U) where
  -- Only the limiters differ.
  pub record IsUntouched (ws after : WebScraper U Db) : Type 0 where
    pub visited : after.visited ≡ ws.visited
    pub lru : after.lru ≡ ws.lru
    pub db : after.db ≡ ws.db

  untouched : (ws : WebScraper U Db) → IsUntouched ws ws
  untouched ws = record { visited = refl; lru = refl; db = refl }

  start_limiter-IsUntouched :
      (uri : U) (ws : WebScraper U Db)
      → IsUntouched ws (start_limiter U Db Vec urls u services cfg net uri ws)
  unfolding start_limiter
  start_limiter-IsUntouched uri ws = elim (Option-cases (lookup (urls.host uri) ws.rl_map)) [
    | inl new ↦ rw (start_limiter, new) (record { visited = refl; lru = refl; db = refl })
    | inr (rate, old) ↦ rw (start_limiter, old) (untouched ws)
  ]

  fetch_page_rules_lem :
      (cur : U) (ws : WebScraper U Db)
      → (after : WebScraper U Db) × (fetch_page_rules U Db Vec urls u services cfg net cur ws
          ≡ some after)
        × IsUntouched ws after
  unfolding fetch_page_rules
  fetch_page_rules_lem cur ws = elim (Option-cases (net.fetch_robots cur)) [
    | inl nothing ↦ (ws, rw (fetch_page_rules, nothing) refl, untouched ws)
    | inr (r, fetched) ↦
        let (robots, parsed, _) = parse_names u r in
        elim (Bool-cases (
          is_default (lookup (urls.host cur) ws.rl_map)
          && is_positive (delay_of (codes "*") robots))) [
            | inl slower ↦ (
              record ws { rl_map = insert (urls.host cur) (delay_of (codes "*") robots) ws.rl_map },
              rw (fetch_page_rules, fetched, parsed, slower) refl,
              record { visited = refl; lru = refl; db = refl },
            )
            | inr kept ↦ (
              start_limiter U Db Vec urls u services cfg net cur ws,
              rw (fetch_page_rules, fetched, parsed, kept) refl,
              start_limiter-IsUntouched cur ws,
            )
          ]
  ]

  sitemap_error :
      (cur : U) (items : List Text)
      → net.get_sitemap_urls (sitemap_url U Db Vec urls u services cfg net cur) ≡ inr items
      → (prepare_sitemap_links U Db Vec urls u services cfg net cur).1 ≡ base_xml_page_error
  unfolding prepare_sitemap_links have_sitemap
  sitemap_error cur items h = rw (prepare_sitemap_links, have_sitemap, h) refl

  -- Where the sitemap of a page can be fetched, even if it names no page, the task for that page ends without a fault and
  -- submits nothing, and neither the visited pages, nor the cache, nor the database change: the page is not read.
  pub scrape_with_context-IsUntouched :
      (task : Task U) (ws : WebScraper U Db) (items : List Text)
      → net.get_sitemap_urls (sitemap_url U Db Vec urls u services cfg net task.url) ≡ inr items
      → (after : WebScraper U Db) × (scrape_with_context U Db Vec urls u services cfg net task ws
          ≡ some (after, []))
        × IsUntouched ws after
  unfolding scrape_with_context
  scrape_with_context-IsUntouched task ws items h =
      let (limited, ruled, same) = fetch_page_rules_lem task.url ws in
      elim (Bool-cases (net.is_done_before || leb cfg.depth task.depth)) [
        | inl stop ↦ (ws, rw (scrape_with_context, stop) refl, untouched ws)
        | inr go ↦ elim (Option-cases (normalize_url U urls u (urls.to_string task.url))) [
          | inl failed ↦ (ws, rw (scrape_with_context, go, failed) refl, untouched ws)
          | inr (normalized, normal) ↦ (
            limited,
            rw
                (
                  scrape_with_context,
                  go,
                  normal,
                  ruled,
                  sitemap_error task.url items h,
                  eqb_refl base_xml_page_error,
                )
                refl,
            same,
          )
        ]
      ]
