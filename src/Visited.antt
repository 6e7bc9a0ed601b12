-- ===== src/Visited.antt =====
-- internal/repository/indexRepos.go: `LoadVisitedUrls` and `SaveVisitedUrls`.
-- URLs are byte strings. A sync.Map is an association list, in the order in which Range visits it.
pub mod RoundTrip
mod Tests
use monocle.Prelude.{
  ℕ, ◌⊎◌, inl, inr, Option, none, some, List, [], ◌∷◌, ◌++◌, length, drop, if◌then◌else◌,
}
use monocle.Prelude.Assoc.{insert}
use monocle.Prelude.Text.{Text, codes, has_prefix}
use monocle.Prelude.Suffix.{trim_prefix}
use monocle.Prelude.Unicode.{ℤ}
use monocle.Prelude.Decimal.{decimal, parse_int}
use monocle.Store.{Store, Failure, bad_number}
use monocle.Store.Gather.{gather}

unfoldable pub visited_prefix : Text
visited_prefix = codes "visited:"

-- One entry: the URL and its depth, or the error of Atoi.
unfoldable pub decode_visited : Text → Text → Failure ⊎ (Text × ℤ)
decode_visited key depth = elim (parse_int depth) [
  | none ↦ inl bad_number
  | some d ↦ inr (trim_prefix key visited_prefix, d)
]

module _ (Db : Type 0) (store : Store Db) where
  -- The map, with the error returned.
  unfoldable pub load_visited_urls : List (Text × ℤ) → Db → List (Text × ℤ) × Option Failure
  load_visited_urls visited db = gather decode_visited (store.scan visited_prefix db) visited

  -- An error of an update is dropped.
  unfoldable pub save_visited_url : Text → ℕ → Db → Db
  save_visited_url url depth db = elim (store.set (visited_prefix ++ url) (decimal depth) db) [
    | none ↦ db
    | some after ↦ after
  ]

  -- Range visits every entry, and nil is returned.
  unfoldable pub save_visited_urls : List (Text × ℕ) → Db → Db
  save_visited_urls [] db = db
  save_visited_urls ((url, depth) ∷ visited) db =
      save_visited_urls visited (save_visited_url url depth db)
