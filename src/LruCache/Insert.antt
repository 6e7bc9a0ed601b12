-- ===== src/LruCache/Insert.antt =====
-- Putting a node behind the first sentinel.
use monocle.Prelude.{
  ℕ, suc, ◌≡◌, ◌≢◌, ◌<◌, refl, sym, ◌∙◌, ap, if◌then◌else◌, Option, none, some, List, [], ◌∷◌, All,
  arith, length,
}
use mathlib.Core.Path.{subst}
use monocle.Prelude.Assoc.{lookup, insert, lookup-insert}
use monocle.Prelude.Unique.{IsUnique, insert-IsUnique, length-insert}
use monocle.Prelude.Text.{Text, eqb}
use monocle.LruCache.{Node, LruCache, set_next, set_prev, insert_node}
use monocle.LruCache.Chain.{link, Chain-frame, link_new}
use monocle.LruCache.Recent.{keyed, IsCache, IsLike, keyed_same}

All-every : {A : Type 0} {P : A → Type 0} → ((x : A) → P x) → (xs : List A) → All P xs
All-every f [] = tt
All-every f (x ∷ xs) = (f x, All-every f xs)

lookup_first :
    (k j : Text) (q : ℕ) (m : List (Text × ℕ))
    → lookup j ((k, q) ∷ m) ≡ (if eqb k j then some q else lookup j m)
unfolding lookup
lookup_first k j q m = refl

module _ {V : Type 0} where
  -- The node at `q` is not in the list, and there is room for it.
  pub record IsReady (c : LruCache V) (ps : List ℕ) (q : ℕ) : Type 0 where
    pub apart : All (λ z. q ≢ z) (c.head ∷ ps)
    pub not_tail : q ≢ c.tail
    pub made : q < c.size
    pub absent : lookup (c.nodes q).key c.mp ≡ none
    pub room : length ps < c.capacity

  -- The writes of `insert`, in their order.
  writes : ℕ → ℕ → ℕ → (ℕ → Node V) → ℕ → Node V
  writes p q y nodes =
      set_next q (some y) (set_prev y (some q) (set_prev q (some p) (set_next p (some q) nodes)))

  module _ (p q y : ℕ) (nodes : ℕ → Node V) (z : ℕ) where
    next_writes : (writes p q y nodes z).next ≡ (link q y (link p q nodes) z).next
    unfolding writes set_next set_prev
    next_writes = ground arith

    prev_writes : (writes p q y nodes z).prev ≡ (link q y (link p q nodes) z).prev
    unfolding writes set_next set_prev
    prev_writes = ground arith

    key_writes : (writes p q y nodes z).key ≡ (nodes z).key
    unfolding writes set_next set_prev
    key_writes = ground arith

    value_writes : (writes p q y nodes z).value ≡ (nodes z).value
    unfolding writes set_next set_prev
    value_writes = ground arith

  pub insert_node-IsCache :
      (c : LruCache V) (ps : List ℕ) (q : ℕ)
      → IsCache c ps
      → IsReady c ps q
      → (d : LruCache V) × (insert_node q c ≡ some d)
        × IsLike c d
        × (d.size ≡ c.size)
        × IsCache d (q ∷ ps)
  unfolding insert_node writes
  insert_node-IsCache c ps q h r =
      let (y, first, chain) = link_new c.nodes c.head q c.tail ps r.apart r.not_tail h.chain in
      let nodes = writes c.head q y c.nodes in
      let key : (p : ℕ) → (nodes p).key ≡ (c.nodes p).key = λ p. key_writes c.head q y c.nodes p in
      let rest : keyed nodes (q ∷ ps) ≡ ((c.nodes q).key, q) ∷ keyed c.nodes ps =
        keyed_same c.nodes nodes (q ∷ ps) key in
      (
        record c { mp = insert (c.nodes q).key q c.mp; nodes = nodes },
        rw (insert_node, first) refl,
        record {
          head = refl;
          tail = refl;
          capacity = refl;
          key = key;
          value = λ p. value_writes c.head q y c.nodes p;
        },
        refl,
        record {
          chain =
              Chain-frame (link q y (link c.head q c.nodes)) nodes c.head (q ∷ ps) c.tail
                (All-every (next_writes c.head q y c.nodes) (c.head ∷ q ∷ ps))
                (All-every (prev_writes c.head q y c.nodes) (q ∷ ps))
                (prev_writes c.head q y c.nodes c.tail) chain;
          made = (h.made.0, (r.made, h.made.1));
          tail_made = h.tail_made;
          sees = λ k.
              lookup-insert (c.nodes q).key k q c.mp
              ∙ ap (λ (o : Option ℕ). if eqb (c.nodes q).key k then some q else o) (h.sees k)
              ∙ sym (ap (lookup k) rest ∙ lookup_first (c.nodes q).key k q (keyed c.nodes ps));
          unique =
              subst (λ m. IsUnique m) (sym rest)
                (sym (h.sees (c.nodes q).key) ∙ r.absent, h.unique);
          unique_mp = insert-IsUnique (c.nodes q).key q c.mp h.unique_mp;
          size_mp = length-insert (c.nodes q).key q c.mp r.absent ∙ ap suc h.size_mp;
          room = r.room;
        },
      )
