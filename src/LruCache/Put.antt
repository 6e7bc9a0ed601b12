-- ===== src/LruCache/Put.antt =====
-- What storing a value does to the list of the entries.
use monocle.Prelude.{
  All-map, ℕ, ◌≡◌, ◌<◌, refl, sym, ◌∙◌, ap, Option, none, some, List, [], ◌∷◌, All, arith, length,
  map,
}
use mathlib.Core.Path.{subst}
use monocle.Prelude.Assoc.{lookup, delete}
use monocle.Prelude.Unique.{IsUnique}
use monocle.Prelude.Text.{Text}
use monocle.LruCache.{Node, LruCache, new_node, insert_node, allocate, put}
use monocle.LruCache.Chain.{Chain-frame}
use monocle.LruCache.Recent.{put_recent, keyed, contents, IsCache, contents_same}
use monocle.LruCache.Insert.{IsReady, insert_node-IsCache}
use monocle.LruCache.Get.{Holds}
use monocle.LruCache.Room.{remove_key_lem, remove_oldest_lem, trimmed, HasRoom}

map_made : {A : Type 0} (f g : ℕ → A) (ps : List ℕ) → All (λ p. f p ≡ g p) ps → map f ps ≡ map g ps
map_made f g [] h = refl
map_made f g (p ∷ ps) h = rw (h.0) (ap (◌∷◌ (g p)) (map_made f g ps h.1))

module _ {V : Type 0} where
  -- A node that was just made is not yet in the list.
  module _ (k : Text) (v : Option V) (c : LruCache V) (ps : List ℕ) (h : IsCache c ps) where
    same_node : (p : ℕ) → p < c.size → (allocate k v c).nodes p ≡ c.nodes p
    unfolding allocate
    same_node p made = ground (arith, made)

    new_node_lem : (allocate k v c).nodes c.size ≡ new_node k v
    unfolding allocate
    new_node_lem = ground arith

    keyed_made : keyed (allocate k v c).nodes ps ≡ keyed c.nodes ps
    keyed_made =
        map_made _ _ ps
          (All-map (λ p made. ap (λ (n : Node V). (n.key, p)) (same_node p made)) ps h.made.1)

    contents_made : contents (allocate k v c).nodes ps ≡ contents c.nodes ps
    contents_made =
        map_made _ _ ps
          (All-map (λ p made. ap (λ (n : Node V). (n.key, n.value)) (same_node p made)) ps h.made.1)

    allocate-IsCache : IsCache (allocate k v c) ps
    unfolding allocate
    allocate-IsCache = record {
      chain =
          Chain-frame c.nodes (allocate k v c).nodes c.head ps c.tail
            (All-map (λ p made. ap (λ (n : Node V). n.next) (same_node p made)) (c.head ∷ ps)
              h.made)
            (All-map (λ p made. ap (λ (n : Node V). n.prev) (same_node p made)) ps h.made.1)
            (ap (λ (n : Node V). n.prev) (same_node c.tail h.tail_made)) h.chain;
      made = All-map (λ p made. omega (arith, made)) (c.head ∷ ps) h.made;
      tail_made = omega (arith, h.tail_made);
      sees = λ j. h.sees j ∙ ap (lookup j) (sym keyed_made);
      unique = subst (λ m. IsUnique m) (sym keyed_made) h.unique;
      unique_mp = h.unique_mp;
      size_mp = h.size_mp;
      room = h.room;
    }

    allocate-IsReady :
        lookup k c.mp ≡ none → length ps < c.capacity → IsReady (allocate k v c) ps c.size
    unfolding allocate
    allocate-IsReady absent room = record {
      apart = All-map (λ p made e. omega (arith, made, e)) (c.head ∷ ps) h.made;
      not_tail = λ e. omega (arith, h.tail_made, e);
      made = omega arith;
      absent = ap (λ (n : Node V). lookup n.key c.mp) new_node_lem ∙ absent;
      room = room;
    }

  put_new :
      (k : Text) (v : Option V) (xs : List (Text × Option V)) (c : LruCache V)
      → HasRoom xs c
      → lookup k c.mp ≡ none
      → (d : LruCache V) × (insert_node c.size (allocate k v c) ≡ some d)
        × (d.capacity ≡ c.capacity)
        × Holds ((k, v) ∷ xs) d
  put_new k v xs c r absent =
      let ps = r.holds.nodes in
      let h = r.holds.cache in
      let new = allocate k v c in
      let (d, inserted, like, size, d_is) =
        insert_node-IsCache new ps c.size (allocate-IsCache k v c ps h)
          (allocate-IsReady k v c ps h absent r.room) in
      let first : ((new.nodes c.size).key, (new.nodes c.size).value) ≡ (k, v) =
        ap (λ (n : Node V). (n.key, n.value)) (new_node_lem k v c ps h) in
      let same : new.capacity ≡ c.capacity = unfold allocate in refl in
      (
        d,
        inserted,
        like.capacity ∙ same,
        record {
          nodes = c.size ∷ ps;
          cache = d_is;
          entries =
              contents_same new d (c.size ∷ ps) like
              ∙ ap (λ e. e ∷ contents new.nodes ps) first
              ∙ ap (◌∷◌ (k, v)) (contents_made k v c ps h ∙ r.holds.entries);
        },
      )

  pub put_lem :
      (k : Text) (v : Option V) (xs : List (Text × Option V)) (c : LruCache V)
      → Holds xs c
      → 0 < c.capacity
      → (d : LruCache V) × (put k v c ≡ some d)
        × (d.capacity ≡ c.capacity)
        × Holds (put_recent c.capacity k v xs) d
  unfolding put
  put_lem k v xs c h positive =
      let (a, removed, capacity, a_is, absent) = remove_key_lem k xs c h in
      let (b, trim, capacity', absent', r) =
        remove_oldest_lem k (delete k xs) a a_is (omega (arith, capacity, positive)) absent in
      let (d, inserted, capacity'', d_is) =
        put_new k v (trimmed a.capacity (delete k xs)) b r absent' in
      (
        d,
        rw (put, removed, trim) inserted,
        capacity'' ∙ capacity' ∙ capacity,
        subst (λ n. Holds ((k, v) ∷ trimmed n (delete k xs)) d) capacity d_is,
      )
