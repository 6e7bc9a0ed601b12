-- ===== src/Crawler.antt =====
-- internal/app/scraper/scraper.go, sitemapHandling.go and `fetchHTMLcontent` of htmlHandling.go. The network, package
-- encoding/gob, the hash, the vectorizer and the indexer are parameters. A task is what is given to the worker pool, and
-- runs as one step; a result `none` is a fault. Logging is left out.
pub mod State
pub mod Offers
pub mod Depth
pub mod Sitemap
mod Tests
use monocle.Prelude.{
  ℕ, ◌+◌, leb, not, ◌&&◌, ◌||◌, true, false, Option, none, some, List, [], ◌∷◌, if◌then◌else◌,
}
use monocle.Prelude.Maybe.{◌>>=◌}
use monocle.Prelude.Assoc.{lookup, insert}
use monocle.Prelude.Text.{Text, eqb}
use monocle.Prelude.Unicode.{Unicode}
use monocle.Robots.{RobotsTxt, parse}
use monocle.Indexer.{Passage}
use monocle.Urls.{UrlLibrary, normalize_url}
use monocle.LruCache.{get, put}
use monocle.Page.{LinkToken, parse_html_stream}
use monocle.Crawler.State.{
  Network, Services, ConfigData, Task, Job, start_job, link_job, WebScraper, base_xml_page_error,
  default_delay, full_text,
}
use monocle.Crawler.Offers.{start_limiter, fetch_page_rules, prepare_sitemap_links}

module _ (U : Type 0) (cfg : ConfigData) where
  -- The loop over the links, up to `Submit`.
  unfoldable pub submit_links : Task U → List (LinkToken U) → List (Task U)
  submit_links task [] = []
  submit_links task (token ∷ tokens) =
      let rest = submit_links task tokens in
      let next : Task U = record {
        url = token.link;
        rules = if token.same_domain then task.rules else none;
        depth = task.depth + 1;
      } in
      if cfg.only_same_domain && not token.same_domain then rest else next ∷ rest

module _ (U Db Vec : Type 0) (urls : UrlLibrary U) (u : Unicode) (services : Services U Db Vec)
    (cfg : ConfigData) (net : Network U) where
  -- `fetchHTMLcontent`, after the page was read: `none` is an error.
  unfoldable pub index_page :
      Text
      → U
      → List (LinkToken U)
      → List Passage
      → WebScraper U Db
      → WebScraper U Db × Option (List (LinkToken U))
  index_page hashed cur links passages ws =
      let (db, crawled) = services.is_crawled_content hashed passages ws.db in
      elim crawled [
        | none ↦ (record ws { db = db }, none)
        | some true ↦ (record ws { db = db }, none)
        | some false ↦ elim (services.put_doc_req (full_text passages)) [
          | none ↦ (record ws { db = db }, none)
          | some vec ↦
              let (after, ok) =
                services.handle_document_words hashed (urls.to_string cur) vec passages db in
              (record ws { db = after }, if ok then some links else none)
        ]
      ]

  unfoldable pub fetch_html_content :
      U
      → Text
      → Option RobotsTxt
      → ℕ
      → WebScraper U Db
      → Option (WebScraper U Db × Option (List (LinkToken U)))
  fetch_html_content cur norm rls gd ws = elim (net.tokens cur) [
    | none ↦ some (ws, none)
    | some tokens ↦ do
      (links, passages) ← parse_html_stream U urls u cur rls ws.visited gd net.is_done tokens
      lru ← elim links [
        | [] ↦ some ws.lru
        | l ∷ ls ↦ put (services.hash norm) (some (l ∷ ls)) ws.lru
      ]
      some (index_page (services.hash norm) cur links passages (record ws { lru = lru }))
  ]

  -- The links of a page that was visited at a greater depth.
  unfoldable pub load_links :
      Text → WebScraper U Db → Option (WebScraper U Db × Option (List (LinkToken U)))
  load_links hashed ws = do
    (lru, v) ← get hashed ws.lru
    elim v [
      | some links ↦ some (record ws { lru = lru }, some links)
      | none ↦ elim (services.get_urls_by_hash hashed ws.db) [
        | none ↦ some (record ws { lru = lru }, none)
        | some encoded ↦ elim (services.decode encoded) [
          | none ↦ some (record ws { lru = lru }, none)
          | some [] ↦ some (record ws { lru = lru }, some [])
          | some (l ∷ ls) ↦ do
            stored ← put hashed (some (l ∷ ls)) lru
            some (record ws { lru = stored }, some (l ∷ ls))
        ]
      ]
    ]

  -- The links of a page that was fetched are saved; without links the task ends.
  unfoldable pub save_links :
      Text
      → WebScraper U Db × Option (List (LinkToken U))
      → WebScraper U Db × Option (List (LinkToken U))
  save_links hashed (ws, none) = (ws, none)
  save_links hashed (ws, some []) = (ws, none)
  save_links hashed (ws, some (l ∷ ls)) = elim (services.encode (l ∷ ls)) [
    | none ↦ (ws, none)
    | some buf ↦
        let (db, ok) = services.save_urls_to_bank hashed buf ws.db in
        (record ws { db = db }, if ok then some (l ∷ ls) else none)
  ]

  -- The links of the page, from the test of the visited ones.
  unfoldable pub page_links :
      Task U → Text → WebScraper U Db → Option (WebScraper U Db × Option (List (LinkToken U)))
  page_links task normalized ws = elim (lookup normalized ws.visited) [
    | some prev_depth ↦
        if leb prev_depth task.depth
        then some (ws, none)
        else load_links (services.hash normalized) ws
    | none ↦ do
      fetched ←
          fetch_html_content task.url normalized task.rules task.depth
            (record ws { visited = insert normalized task.depth ws.visited })
      some (save_links (services.hash normalized) fetched)
  ]

  -- What the task submits, once its links are known.
  unfoldable pub finish :
      Task U → WebScraper U Db × Option (List (LinkToken U)) → WebScraper U Db × List (Task U)
  finish task (ws, none) = (ws, [])
  finish task (ws, some links) = (ws, submit_links U cfg task links)

  unfoldable pub scrape_with_context :
      Task U → WebScraper U Db → Option (WebScraper U Db × List (Task U))
  scrape_with_context task ws =
      if net.is_done_before || leb cfg.depth task.depth
      then some (ws, [])
      else (elim (normalize_url U urls u (urls.to_string task.url)) [
        | none ↦ some (ws, [])
        | some normalized ↦ do
          limited ← fetch_page_rules U Db Vec urls u services cfg net task.url ws
          let (links, err) = prepare_sitemap_links U Db Vec urls u services cfg net task.url
          (if eqb err base_xml_page_error || net.is_done_after then some (limited, []) else (do
            found ← elim links [
              | [] ↦ page_links task normalized limited
              | l ∷ ls ↦ some (limited, some (l ∷ ls))
            ]
            some (finish task found)))
      ])

  -- The two functions that are submitted.
  unfoldable pub run_job : Job U → WebScraper U Db → Option (WebScraper U Db × List (Task U))
  run_job (start_job uri) ws =
      scrape_with_context (record { url = uri; rules = none; depth = 0 })
        (record ws { rl_map = insert (urls.host uri) default_delay ws.rl_map })
  run_job (link_job task) ws =
      scrape_with_context task (start_limiter U Db Vec urls u services cfg net task.url ws)

-- The loop of `Run` over the start URLs.
unfoldable pub start_jobs : (U : Type 0) → UrlLibrary U → List Text → List (Job U)
start_jobs U urls [] = []
start_jobs U urls (uri ∷ rest) =
    let jobs = start_jobs U urls rest in
    elim (urls.parse uri) [ none ↦ jobs | some parsed ↦ start_job parsed ∷ jobs ]
