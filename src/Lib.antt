-- ===== src/Lib.antt =====
-- monocle is a web crawler for English pages with a search over what it has indexed. A scraper
-- (internal/app/scraper) fetches pages through a worker pool (pkg/workerPool), reads robots.txt
-- (pkg/parser) and hands passages to the indexer (internal/app/indexer), which tokenizes and stems
-- them (textHandling) and writes words and n-grams to a key-value store (internal/repository). A
-- query goes the same way through the stemmer, has its unknown words replaced by the spell checker
-- (spellChecker), and its documents are ranked by the searcher (internal/app/searcher).
--
-- What each file models:
--
-- - SpellChecker: internal/app/indexer/spellChecker/spellChecker.go. `levenshtein_distance` is
--   levenshteinDistance with its table as a `Matrix` whose indexing can fault; `best_replacement` is
--   BestReplacement with its stack of tokens. SpellChecker/Script has the edit scripts by which the
--   distance is specified, SpellChecker/Optimal the recurrence, SpellChecker/Table the loops.
-- - Robots: pkg/parser/robotsTXT.go. `parse` is ParseRobotsTxt, a fold of `round` over the lines with
--   the map and the pointer as state; `is_allowed` is IsAllowed. FetchRobotsTxt is HTTP and left out.
-- - Stemmer: internal/app/indexer/textHandling/stemmer.go, `stem`, `measure` and the tables. The order
--   in which Go visits a map is an argument, `Visit`.
-- - Tokenizer: internal/app/indexer/textHandling/tokenizer.go. `fragment_tokenize` is fragmentTokenize
--   with `scan` as its loop; `entity_tokenize` is entityTokenize with `potential`, `sort_stable`,
--   `select` and `weave` as its four stages. A regular expression is the function that finds its matches.
-- - UrlSearch: internal/app/searcher/preprocessingFeatures.go, `boyerMoorAlgorithm`. The loop indices reach -1 in the
--   source and are kept one up here. The outer loop runs on fuel, one round for each rune of the URL and one more.
-- - Proximity: internal/app/searcher/preprocessingFeatures.go, `getMinQueryDistInDoc`. `bs` runs on the array's length
--   as fuel, which is enough since each round shortens the interval.
-- - Indexer: internal/app/indexer/wordHandling.go, `HandleDocumentWords`, and `TokenizeAndStem` of
--   internal/app/indexer/textHandling/stemmer.go. It composes the tokenizer and the stemmer, and its position lists are
--   what Proximity searches. The repository that it calls is a record of operations that return an error or none.
-- - NGrams: internal/repository/chunkRepos.go, `extractNGrams`, `IndexNGrams`, `flushChunk`, `FlushAll` and
--   `GetWordsByNGram` (NGrams/Lookup), with the database, encoding/json and the order in which
--   the map of buffers is visited as parameters. NGrams/Chunks reads the chunks back. The decimal number
--   of a chunk has fuel for as many digits as the number itself.
-- - Store: the interface of the key-value store, package badger: reads, updates and prefix scans, with the laws
--   of `IsStore`; Store/Memory is an instance, Store/Gather the loops over a scan.
-- - Documents: internal/repository/documentRepos.go and urlsRepos.go, and `GetAVGLen` of
--   internal/app/indexer/indexer.go.
-- - Postings: internal/repository/indexRepos.go, `IndexDocumentWords` and `GetDocumentsByWord`. The chunks run on the
--   number of entries as fuel, which is enough since each chunk has one at least.
-- - Visited: internal/repository/indexRepos.go, `LoadVisitedUrls` and `SaveVisitedUrls`.
-- - LruCache: internal/app/scraper/lruCache/lruCache.go. The nodes stand in a heap by their addresses.
-- - Urls: internal/app/scraper/urlHandling.go, with package net/url as a parameter.
-- - Page: internal/app/scraper/htmlHandling.go, `parseHTMLStream` over the tokens of package html. It asks the rules of
--   Robots, calls Urls and gives the passages that Indexer takes.
-- - Crawler: internal/app/scraper/scraper.go and sitemapHandling.go, and `fetchHTMLcontent` of htmlHandling.go.
--   Crawler/State has the tasks and the interfaces, Crawler/Offers robots.txt and the sitemap. It runs Page on the tokens
--   of a page and keeps the links in LruCache. What the network gives to a task is an argument of the task.
-- - WorkerPool: pkg/workerPool/workerPool.go, up to `Stop`, as steps of its threads. The jobs of Crawler run on it.
-- - Config: configs/config.go and configs/validator.go, with the fields and tags that package reflect gives.
-- - Prelude: shared names, tests, lists, texts, association lists, Go's string functions.
--
-- Strings are sequences of code points, which is what Go's valid UTF-8 strings are; `bytes` gives their
-- UTF-8 bytes where the source counts or reads bytes. The tables of package unicode are a parameter,
-- `Unicode`, with `ascii` as the instance of the examples. Numbers are natural numbers: the lengths
-- and counts of the source stay far below 2^63. `none` of an `Option` is a run-time panic (an index
-- out of range, a nil dereference). Loops recur on the list or on the rounds left, so no model needs
-- fuel unless its file says so.
--
-- Not modelled: HTTP, HTML and XML parsing by libraries, the BadgerDB store itself, gob and JSON
-- encodings, the terminal interface, the Python server with the models, floating-point scores.
pub mod Config
pub mod Crawler
pub mod Documents
pub mod Indexer
pub mod LruCache
pub mod NGrams
pub mod Page
pub mod Postings
pub mod Prelude
pub mod Proximity
pub mod Robots
pub mod SpellChecker
pub mod Stemmer
pub mod Store
pub mod Tokenizer
pub mod UrlSearch
pub mod Urls
pub mod Visited
pub mod WorkerPool
