-- ===== src/LruCache.antt =====
-- internal/app/scraper/lruCache/lruCache.go. A pointer to a node is its address in the heap, and `none` is nil; a value
-- is an `any`, `none` if it is nil. A result `none` is a fault. The mutex makes each call one step.
pub mod Chain
pub mod Recent
pub mod Remove
pub mod Insert
pub mod Get
pub mod Room
pub mod Put
pub mod Refines
mod Tests
use monocle.Prelude.{ℕ, suc, ◌==◌, Option, none, some, List, [], ◌∷◌, length, if◌then◌else◌, zero}
use monocle.Prelude.Maybe.{◌>>=◌}
use monocle.Prelude.Assoc.{lookup, insert, delete}
use monocle.Prelude.Text.{Text}

-- `node`
pub record Node (V : Type 0) : Type 0 where
  pub prev : Option ℕ
  pub next : Option ℕ
  pub key : Text
  pub value : Option V

-- The nodes that were made stand below `size`.
pub record LruCache (V : Type 0) : Type 0 where
  pub mp : List (Text × ℕ)
  pub head : ℕ
  pub tail : ℕ
  pub capacity : ℕ
  pub nodes : ℕ → Node V
  pub size : ℕ

abbrev zeros : ℕ → Text
zeros zero = []
zeros (suc n) = 0 ∷ zeros n

module _ {V : Type 0} where
  abbrev pub new_node : Text → Option V → Node V
  new_node k v = record { prev = none; next = none; key = k; value = v }

  -- `p.next = v` and `p.prev = v`
  unfoldable pub set_next : ℕ → Option ℕ → (ℕ → Node V) → ℕ → Node V
  set_next p v nodes q = if p == q then record (nodes q) { next = v } else nodes q

  unfoldable pub set_prev : ℕ → Option ℕ → (ℕ → Node V) → ℕ → Node V
  set_prev p v nodes q = if p == q then record (nodes q) { prev = v } else nodes q

  unfoldable pub new_lru_cache : ℕ → LruCache V
  new_lru_cache cap = record {
    mp = [];
    head = 0;
    tail = 1;
    capacity = cap;
    nodes = set_prev 1 (some 0) (set_next 0 (some 1) (λ p. new_node (zeros 32) none));
    size = 2;
  }

  unfoldable pub remove : ℕ → LruCache V → Option (LruCache V)
  remove p c = do
    before ← (c.nodes p).prev
    let nodes = set_next before (c.nodes p).next c.nodes
    after ← (nodes p).next
    some
        (record c { mp = delete (c.nodes p).key c.mp; nodes = set_prev after (nodes p).prev nodes })

  -- `insert`
  unfoldable pub insert_node : ℕ → LruCache V → Option (LruCache V)
  insert_node p c = do
    next ← (c.nodes c.head).next
    some (record c {
      mp = insert (c.nodes p).key p c.mp;
      nodes =
          set_next p (some next)
            (set_prev next (some p) (set_prev p (some c.head) (set_next c.head (some p) c.nodes)));
    })

  unfoldable pub get : Text → LruCache V → Option (LruCache V × Option V)
  get k c = elim (lookup k c.mp) [
    | none ↦ some (c, none)
    | some p ↦ do
      removed ← remove p c
      inserted ← insert_node p removed
      some (inserted, (inserted.nodes p).value)
  ]

  -- `newNode`, at a new address.
  unfoldable pub allocate : Text → Option V → LruCache V → LruCache V
  allocate k v c = record c {
    nodes = λ q. if c.size == q then new_node k v else c.nodes q;
    size = suc c.size;
  }

  -- The two conditional removals of `Put`.
  unfoldable pub remove_key : Text → LruCache V → Option (LruCache V)
  remove_key k c = elim (lookup k c.mp) [ none ↦ some c | some p ↦ remove p c ]

  unfoldable pub remove_oldest : LruCache V → Option (LruCache V)
  remove_oldest c =
      if length c.mp == c.capacity
      then (do oldest ← (c.nodes c.tail).prev; remove oldest c)
      else some c

  unfoldable pub put : Text → Option V → LruCache V → Option (LruCache V)
  put k v c = do
    absent ← remove_key k c
    room ← remove_oldest absent
    insert_node room.size (allocate k v room)
