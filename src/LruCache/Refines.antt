-- ===== src/LruCache/Refines.antt =====
-- Runs of the cache, against runs of the list of its entries.
use monocle.Prelude.{ℕ, ◌≡◌, ◌<◌, refl, ◌∙◌, Option, some, List, [], ◌∷◌, arith}
use mathlib.Core.Path.{subst}
use monocle.Prelude.Maybe.{◌>>=◌}
use monocle.Prelude.Assoc.{lookup}
use monocle.Prelude.Text.{Text}
use monocle.LruCache.{LruCache, set_next, set_prev, new_lru_cache, get, put}
use monocle.LruCache.Recent.{get_recent, put_recent}
use monocle.LruCache.Get.{Holds}
use monocle.LruCache.Get.{get_lem}
use monocle.LruCache.Put.{put_lem}

-- A call of the cache.
pub data Call (V : Type 0) : Type 0 where
  get_call : Text → Call V
  put_call : Text → Option V → Call V

module _ {V : Type 0} where
  -- The results of the lookups of some calls, in their order.
  unfoldable pub run : List (Call V) → LruCache V → Option (List (Option V))
  run [] c = some []
  run (get_call k ∷ calls) c = do (d, v) ← get k c; vs ← run calls d; some (v ∷ vs)
  run (put_call k v ∷ calls) c = do d ← put k v c; run calls d

  abbrev pub run_recent : ℕ → List (Call V) → List (Text × Option V) → List (Option V)
  run_recent capacity [] xs = []
  run_recent capacity (get_call k ∷ calls) xs =
      (get_recent k xs).1 ∷ run_recent capacity calls (get_recent k xs).0
  run_recent capacity (put_call k v ∷ calls) xs =
      run_recent capacity calls (put_recent capacity k v xs)

  run_lem :
      (capacity : ℕ) (calls : List (Call V)) (xs : List (Text × Option V)) (c : LruCache V)
      → 0 < capacity
      → c.capacity ≡ capacity
      → Holds xs c
      → run calls c ≡ some (run_recent capacity calls xs)
  unfolding run
  run_lem capacity [] xs c positive e h = refl
  run_lem capacity (get_call k ∷ calls) xs c positive e h =
      let (d, found, same, h') = get_lem k xs c h in
      rw (run, found, run_lem capacity calls (get_recent k xs).0 d positive (same ∙ e) h') refl
  run_lem capacity (put_call k v ∷ calls) xs c positive e h =
      let (d, stored, same, h') = put_lem k v xs c h (omega (arith, positive, e)) in
      rw (run, stored)
        (run_lem capacity calls (put_recent capacity k v xs) d positive (same ∙ e)
          (subst (λ n. Holds (put_recent n k v xs) d) e h'))

  new_lru_cache-Holds : (capacity : ℕ) → Holds [] (new_lru_cache {V = V} capacity)
  new_lru_cache-Holds capacity = record {
    nodes = [];
    cache = record {
      chain = unfold new_lru_cache set_next set_prev in (refl, refl, λ e. omega (arith, e));
      made = unfold new_lru_cache in (omega arith, tt);
      tail_made = unfold new_lru_cache in omega arith;
      sees = λ k. unfold new_lru_cache lookup in refl;
      unique = tt;
      unique_mp = unfold new_lru_cache in tt;
      size_mp = unfold new_lru_cache in refl;
      room = omega arith;
    };
    entries = refl;
  }

  -- A new cache that has room for an entry answers every sequence of calls without a fault, and as the list of entries
  -- does: a lookup gives the value that was stored last for its key, if the entry is still there, and makes the entry
  -- the most recent one; a store makes its entry the most recent one, and drops the least recent one where the list
  -- without the key is as long as the capacity.
  pub run-new_lru_cache :
      (capacity : ℕ) (calls : List (Call V))
      → 0 < capacity
      → run calls (new_lru_cache capacity) ≡ some (run_recent capacity calls [])
  run-new_lru_cache capacity calls positive =
      run_lem capacity calls [] (new_lru_cache capacity) positive (unfold new_lru_cache in refl)
        (new_lru_cache-Holds capacity)
