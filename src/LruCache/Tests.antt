-- ===== src/LruCache/Tests.antt =====
-- Runs of a cache with two entries.
use monocle.Prelude.{ℕ, ◌≡◌, refl, none, some, List, [], ◌∷◌, arith}
use monocle.Prelude.Assoc.{lookup, insert, delete}
use monocle.Prelude.Text.{codes, eqb}
use monocle.LruCache.{
  set_next, set_prev, new_lru_cache, remove, insert_node, get, allocate, remove_key, remove_oldest,
  put,
}
use monocle.LruCache.Refines.{Call, get_call, put_call, run, run_recent, run-new_lru_cache}

program : Unit {0}
unfolding eqb lookup insert delete set_next set_prev new_lru_cache remove insert_node get allocate
    remove_key remove_oldest put run
program = tt

abbrev calls : List (Call ℕ)
calls =
    put_call (codes "a") (some 1)
    ∷ put_call (codes "b") (some 2)
    ∷ get_call (codes "a")
    ∷ put_call (codes "c") (some 3)
    ∷ get_call (codes "b")
    ∷ get_call (codes "a")
    ∷ []

-- The second entry goes, since the first one was looked up.
calls-run : run calls (new_lru_cache 2) ≡ some (some 1 ∷ none ∷ some 1 ∷ [])
unfolding program
calls-run = refl

-- Without room for an entry the first store faults.
calls-no_room : run calls (new_lru_cache 0) ≡ none
unfolding program
calls-no_room = refl

run-new_lru_cache_example : run calls (new_lru_cache 2) ≡ some (run_recent 2 calls [])
run-new_lru_cache_example = run-new_lru_cache 2 calls (omega arith)
