-- ===== src/Visited/Tests.antt =====
-- A crawl that is saved and loaded again.
use monocle.Prelude.{ℕ, ◌^◌, ◌<◌, ◌≡◌, refl, none, some, List, [], ◌∷◌, arith}
use monocle.Prelude.Assoc.{lookup, insert}
use monocle.Prelude.Text.{Text, codes, eqb, has_prefix}
use monocle.Prelude.Suffix.{trim_prefix}
use monocle.Prelude.Unicode.{ℤ, pos}
use monocle.Prelude.Decimal.{digits, scan_digits, in_range, magnitude, parse_int}
use monocle.Store.Memory.{Memory, memory, empty, memory-IsStore, memory-IsReliable}
use monocle.Store.Gather.{gather}
use monocle.Visited.{
  visited_prefix, decode_visited, load_visited_urls, save_visited_url, save_visited_urls,
}
use monocle.Visited.RoundTrip.{loaded, visited_key, load_visited_urls-save_visited_urls}

abbrev crawl : List (Text × ℕ)
crawl = (codes "a.io", 0) ∷ (codes "a.io/b", 12) ∷ []

saved_then_loaded :
    load_visited_urls Memory memory [] (save_visited_urls Memory memory crawl empty)
    ≡ ((codes "a.io", pos 0) ∷ (codes "a.io/b", pos 12) ∷ [], none)
unfolding load_visited_urls save_visited_urls save_visited_url decode_visited trim_prefix
    visited_prefix gather parse_int magnitude in_range scan_digits digits lookup insert eqb
    has_prefix
saved_then_loaded = refl

crawl_small : (u : Text) (d : ℕ) → lookup u crawl ≡ some d → d < 2 ^ 63
unfolding lookup
crawl_small u d h = ground (arith, h)

load_visited_urls-save_visited_urls_example :
    (out : List (Text × ℤ)) × (load_visited_urls Memory memory []
        (save_visited_urls Memory memory crawl empty)
      ≡ (out, none))
    × ((u : Text) → lookup u out ≡ loaded (lookup u crawl) (lookup (visited_key u) []))
unfolding lookup eqb
load_visited_urls-save_visited_urls_example =
    load_visited_urls-save_visited_urls Memory memory memory-IsStore memory-IsReliable crawl empty
      (refl, (refl, tt)) crawl_small (λ u v h. absurd cc)
