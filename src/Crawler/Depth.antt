-- ===== src/Crawler/Depth.antt =====
-- The tasks that a crawl submits.
use monocle.Prelude.{
  All-split, ◌≡◌, ◌≤◌, ◌<◌, refl, inl, inr, leb, not, ◌&&◌, ◌||◌, true, false, Bool, Bool-cases,
  Option-cases, Option, none, some, List, [], ◌∷◌, ◌++◌, if◌then◌else◌, All, All-append, arith, map,
}
use mathlib.Core.Path.{subst}
use monocle.Prelude.Maybe.{◌>>=◌}
use monocle.Prelude.Text.{Text, eqb}
use monocle.Prelude.Unicode.{Unicode}
use monocle.Urls.{UrlLibrary, normalize_url}
use monocle.Page.{LinkToken}
use monocle.Crawler.{submit_links, finish, scrape_with_context, run_job, start_jobs}
use monocle.Crawler.Offers.{fetch_page_rules, prepare_sitemap_links}
use monocle.Crawler.State.{
  Network, Services, ConfigData, Task, WebScraper, base_xml_page_error, Job, start_job, link_job,
}

module _ (U : Type 0) (cfg : ConfigData) where
  -- A task without robots rules, no deeper than the configuration says.
  abbrev pub IsUnruled : Task U → Type 0
  IsUnruled task = (task.rules ≡ none) × (task.depth ≤ cfg.depth)

  next_rules :
      (b : Bool) (task : Task U) → task.rules ≡ none → (if b then task.rules else none) ≡ none
  next_rules true task h = h
  next_rules false task h = refl

  submit_links-IsUnruled :
      (task : Task U) (links : List (LinkToken U))
      → task.rules ≡ none
      → task.depth < cfg.depth
      → All IsUnruled (submit_links U cfg task links)
  unfolding submit_links
  submit_links-IsUnruled task [] h d = tt
  submit_links-IsUnruled task (token ∷ tokens) h d =
      let rest = submit_links-IsUnruled task tokens h d in
      elim (Bool-cases (cfg.only_same_domain && not token.same_domain)) [
        | inl left_out ↦ rw (submit_links, left_out) rest
        | inr taken ↦
            rw (submit_links, taken) ((next_rules token.same_domain task h, omega (arith, d)), rest)
      ]

module _ (U Db Vec : Type 0) (urls : UrlLibrary U) (u : Unicode) (services : Services U Db Vec)
    (cfg : ConfigData) where
  AllUnruled : Option (WebScraper U Db × List (Task U)) → Type 0
  AllUnruled none = true ≡ true
  AllUnruled (some (ws, tasks)) = All (IsUnruled U cfg) tasks

  module _ (net : Network U) (task : Task U) (h : task.rules ≡ none) where
    finish-AllUnruled :
        (o : Option (WebScraper U Db × Option (List (LinkToken U))))
        → task.depth < cfg.depth
        → AllUnruled (do found ← o; some (finish U Db Vec urls u services cfg net task found))
    unfolding AllUnruled finish
    finish-AllUnruled none d = refl
    finish-AllUnruled (some (ws, none)) d = tt
    finish-AllUnruled (some (ws, some links)) d = submit_links-IsUnruled U cfg task links h d

    scrape_with_context-AllUnruled :
        (ws : WebScraper U Db)
        → AllUnruled (scrape_with_context U Db Vec urls u services cfg net task ws)
    unfolding AllUnruled scrape_with_context
    scrape_with_context-AllUnruled ws =
        elim (Bool-cases (net.is_done_before || leb cfg.depth task.depth)) [
          | inl stop ↦ rw (scrape_with_context, stop) tt
          | inr go ↦ elim (Option-cases (normalize_url U urls u (urls.to_string task.url))) [
            | inl failed ↦ rw (scrape_with_context, go, failed) tt
            | inr (normalized, normal) ↦
                elim (Option-cases
                  (fetch_page_rules U Db Vec urls u services cfg net task.url ws)) [
                    | inl fault ↦ rw (scrape_with_context, go, normal, fault) refl
                    | inr (limited, ruled) ↦
                        elim (Bool-cases (
                          eqb (prepare_sitemap_links U Db Vec urls u services cfg net task.url).1
                            base_xml_page_error
                          || net.is_done_after)) [
                            | inl ended ↦ rw (scrape_with_context, go, normal, ruled, ended) tt
                            | inr more ↦
                                rw (scrape_with_context, go, normal, ruled, more)
                                  (finish-AllUnruled _ (ground (arith, go)))
                          ]
                  ]
          ]
        ]

  -- The jobs that wait, and the scraper; each step runs one of them, whichever it is, with what the network gives to it.
  pub data Reaches (first : WebScraper U Db) (jobs : List (Job U))
      : WebScraper U Db → List (Job U) → Type 0 where
    begin : Reaches first jobs first jobs
    next :
        (net : Network U) (ws after : WebScraper U Db) (before : List (Job U)) (job : Job U)
        (later : List (Job U)) (tasks : List (Task U))
        → Reaches first jobs ws (before ++ job ∷ later)
        → run_job U Db Vec urls u services cfg net job ws ≡ some (after, tasks)
        → Reaches first jobs after (before ++ later ++ map link_job tasks)

  abbrev pub IsUnruledJob : Job U → Type 0
  IsUnruledJob (start_job uri) = true ≡ true
  IsUnruledJob (link_job task) = IsUnruled U cfg task

  run_job-AllUnruled :
      (net : Network U) (job : Job U) (ws : WebScraper U Db)
      → IsUnruledJob job
      → AllUnruled (run_job U Db Vec urls u services cfg net job ws)
  unfolding run_job
  run_job-AllUnruled net (start_job uri) ws h =
      scrape_with_context-AllUnruled net (record { url = uri; rules = none; depth = 0 }) refl _
  run_job-AllUnruled net (link_job task) ws h = scrape_with_context-AllUnruled net task h.0 _

  All-link_job :
      (tasks : List (Task U)) → All (IsUnruled U cfg) tasks → All IsUnruledJob (map link_job tasks)
  All-link_job [] h = tt
  All-link_job (t ∷ ts) h = (h.0, All-link_job ts h.1)

  run_job-tasks :
      (net : Network U) (job : Job U) (ws after : WebScraper U Db) (tasks : List (Task U))
      → IsUnruledJob job
      → run_job U Db Vec urls u services cfg net job ws ≡ some (after, tasks)
      → All IsUnruledJob (map link_job tasks)
  unfolding AllUnruled
  run_job-tasks net job ws after tasks h ran =
      All-link_job tasks (subst AllUnruled ran (run_job-AllUnruled net job ws h))

  All-start_jobs : (uris : List Text) → All IsUnruledJob (start_jobs U urls uris)
  unfolding start_jobs
  All-start_jobs [] = tt
  All-start_jobs (uri ∷ rest) = elim (Option-cases (urls.parse uri)) [
    | inl failed ↦ rw (start_jobs, failed) (All-start_jobs rest)
    | inr (parsed, e) ↦ rw (start_jobs, e) (refl, All-start_jobs rest)
  ]

  -- Whatever the network gives, and in whatever order the jobs run, every job that waits for a link is at most as deep
  -- as the configuration says, and has no robots rules: those that are fetched for a page bind no task.
  pub Reaches-IsUnruled :
      (uris : List Text) (first ws : WebScraper U Db) (jobs : List (Job U))
      → Reaches first (start_jobs U urls uris) ws jobs
      → All IsUnruledJob jobs
  Reaches-IsUnruled uris first ws jobs begin = All-start_jobs uris
  Reaches-IsUnruled uris first ws jobs (next net old after before job later tasks reached ran) =
      let (h, this, h') =
        All-split IsUnruledJob before later job
          (Reaches-IsUnruled uris first old (before ++ job ∷ later) reached) in
      All-append IsUnruledJob (before ++ later) (map link_job tasks)
        (All-append IsUnruledJob before later h h') (run_job-tasks net job old after tasks this ran)
