-- ===== src/Crawler/Tests.antt =====
-- A crawl of a site with two pages.
use monocle.Prelude.{
  ℕ, suc, ◌≡◌, refl, none, some, [], ◌∷◌, ◌++◌, if◌then◌else◌, true, false, inl, inr, All,
}
use monocle.Prelude.Assoc.{lookup, insert, delete}
use monocle.Prelude.Text.{Text, codes, eqb, has_prefix}
use monocle.Prelude.Suffix.{has_suffix, trim_suffix, trim_prefix}
use monocle.Prelude.Unicode.{ascii, trim_left, trim_space}
use monocle.Urls.{
  UrlLibrary, contains_text, merge_slashes, make_absolute_url, normalize_url, is_same_origin,
}
use monocle.LruCache.{
  set_next, set_prev, new_lru_cache, remove, insert_node, get, allocate, remove_key, remove_oldest,
  put,
}
use monocle.Page.{
  start_tag, is_garbage, any_garbage, first_href, is_skipped_element, pop_header, pop_garbage,
  end_element, add_passage, may_follow, add_link, follow, start_element, step, read_tokens,
  parse_html_stream,
}
use monocle.Crawler.{
  submit_links, index_page, fetch_html_content, load_links, save_links, page_links, finish,
  scrape_with_context, run_job, start_jobs,
}
use monocle.Crawler.Offers.{
  start_limiter, fetch_page_rules, sitemap_url, process_items, have_sitemap, sitemap_links,
  prepare_sitemap_links,
}
use monocle.Crawler.State.{
  Network, Services, ConfigData, Task, WebScraper, start_job, link_job, full_text,
}
use monocle.Crawler.Depth.{Reaches, begin, next, IsUnruledJob, Reaches-IsUnruled}
use monocle.Crawler.Sitemap.{IsUntouched, scrape_with_context-IsUntouched}

program : Unit {0}
unfolding eqb has_prefix has_suffix trim_suffix trim_prefix lookup insert delete trim_left
    trim_space contains_text merge_slashes make_absolute_url normalize_url is_same_origin set_next
    set_prev new_lru_cache remove insert_node get allocate remove_key remove_oldest put step
    is_garbage any_garbage first_href is_skipped_element pop_header pop_garbage end_element
    add_passage may_follow add_link follow start_element read_tokens parse_html_stream full_text
    submit_links start_limiter fetch_page_rules sitemap_url process_items have_sitemap sitemap_links
    prepare_sitemap_links index_page fetch_html_content load_links save_links page_links finish
    scrape_with_context run_job start_jobs
program = tt

abbrev plain : UrlLibrary Text
plain = record {
  parse = λ t. if eqb t (codes "%") then none else some t;
  resolve_reference = λ base t. if has_prefix t (codes "/") then base ++ t else t;
  without_fragment = λ t. t;
  scheme = λ t. if has_prefix t (codes "https://") then codes "https" else codes "http";
  host = λ t. codes "a.b";
  hostname = λ t. codes "a.b";
  path = λ t. t;
  encoded_query = λ t. [];
  to_string = λ t. t;
}

-- The site has one link on every page.
abbrev site : Network Text
site = record {
  fetch_robots = λ t. none;
  get_sitemap_urls = λ t. inl (codes "404");
  tokens = λ t. some (start_tag (codes "a") ((codes "href", codes "/c") ∷ []) ∷ []);
  is_done_before = false;
  is_done_after = false;
  is_done = λ n. false;
}

abbrev listed : Network Text
listed = record site { get_sitemap_urls = λ t. inr (codes "https://a.b/d" ∷ []) }

-- The database is the number of pages that were indexed.
abbrev services : Services Text ℕ ℕ
services = record {
  hash = λ t. t;
  is_crawled_content = λ id passages n. (n, some false);
  put_doc_req = λ t. some 0;
  handle_document_words = λ id url vec passages n. (suc n, true);
  save_urls_to_bank = λ id bytes n. (n, true);
  get_urls_by_hash = λ id n. none;
  encode = λ links. some [];
  decode = λ t. none;
}

abbrev cfg : ConfigData
cfg = record { depth = 2; only_same_domain = true }

abbrev first : WebScraper Text ℕ
first = record { visited = []; lru = new_lru_cache 2; db = 0; rl_map = [] }

abbrev home : Text
home = codes "https://a.b"

abbrev home_task : Task Text
home_task = record { url = home; rules = none; depth = 0 }

abbrev next_task : Task Text
next_task = record { url = codes "https://a.b/c"; rules = none; depth = 1 }

-- The page is indexed and its link submitted.
home_read :
    (after : WebScraper Text ℕ) × (run_job Text ℕ ℕ plain ascii services cfg site
        (start_job home)
        first
      ≡ some (after, next_task ∷ []))
    × (after.db ≡ 1)
unfolding program
home_read = (_, refl, refl)

home_waits :
    Reaches Text ℕ ℕ plain ascii services cfg first
      (start_jobs Text plain (home ∷ []))
      first
      (start_job home ∷ [])
unfolding program
home_waits = begin

Reaches-IsUnruled_example :
    All (IsUnruledJob Text ℕ ℕ plain ascii services cfg) ([] ++ [] ++ link_job next_task ∷ [])
Reaches-IsUnruled_example =
    Reaches-IsUnruled Text ℕ ℕ plain ascii services cfg (home ∷ []) first home_read.0
      ([] ++ [] ++ link_job next_task ∷ [])
      (next site first home_read.0 [] (start_job home) [] (next_task ∷ []) home_waits home_read.1)

scrape_with_context-IsUntouched_example :
    (after : WebScraper Text ℕ) × (scrape_with_context Text ℕ ℕ plain ascii services cfg listed
        home_task first
      ≡ some (after, []))
    × IsUntouched Text ℕ ℕ plain ascii services cfg listed first after
scrape_with_context-IsUntouched_example =
    scrape_with_context-IsUntouched Text ℕ ℕ plain ascii services cfg listed home_task first
      (codes "https://a.b/d" ∷ []) refl
