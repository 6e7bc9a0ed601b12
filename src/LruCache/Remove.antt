-- ===== src/LruCache/Remove.antt =====
-- Taking a node out of the list and the map.
use monocle.Prelude.{
  All-split, ℕ, suc, ◌≡◌, ◌≢◌, ◌<◌, refl, sym, ◌∙◌, ap, if◌then◌else◌, Option, none, some, List,
  ◌∷◌, ◌++◌, All-append, arith, length, length-append,
}
use monocle.Prelude.Assoc.{lookup, delete, lookup-delete}
use monocle.Prelude.Unique.{delete-IsUnique, length-delete, lookup-map, delete-map}
use monocle.Prelude.Text.{eqb}
use monocle.LruCache.{Node, LruCache, set_next, set_prev, remove}
use monocle.LruCache.Chain.{link, unlink}
use monocle.LruCache.Recent.{keyed, IsCache, IsLike, keyed_same}

module _ {V : Type 0} where
  remove_lem :
      (c : LruCache V) (q x y : ℕ)
      → (c.nodes q).prev ≡ some x
      → (c.nodes q).next ≡ some y
      → x ≢ q
      → remove q c ≡ some (record c { mp = delete (c.nodes q).key c.mp; nodes = link x y c.nodes })
  unfolding remove
  remove_lem c q x y before after differ =
      let next : (set_next x (some y) c.nodes q).next ≡ some y =
        unfold set_next in ground (arith, after, differ) in
      let prev : (set_next x (some y) c.nodes q).prev ≡ some x =
        unfold set_next in ground (arith, before, differ) in
      rw (remove, before, after, next, prev) refl

  key_link : (x y p : ℕ) (nodes : ℕ → Node V) → (link x y nodes p).key ≡ (nodes p).key
  unfolding set_next set_prev
  key_link x y p nodes = ground arith

  value_link : (x y p : ℕ) (nodes : ℕ → Node V) → (link x y nodes p).value ≡ (nodes p).value
  unfolding set_next set_prev
  value_link x y p nodes = ground arith

  -- The node at `q` is gone, and with it its key; nothing else is.
  pub remove-IsCache :
      (c : LruCache V) (before after : List ℕ) (q : ℕ)
      → IsCache c (before ++ q ∷ after)
      → (d : LruCache V) × (remove q c ≡ some d)
        × IsLike c d
        × (d.size ≡ c.size)
        × (d.mp ≡ delete (c.nodes q).key c.mp)
        × IsCache d (before ++ after)
  remove-IsCache c before after q h =
      let n = unlink c.nodes c.head q c.tail before after h.chain in
      let d = record c { mp = delete (c.nodes q).key c.mp; nodes = link n.x n.y c.nodes } in
      let key : (p : ℕ) → (d.nodes p).key ≡ (c.nodes p).key = λ p. key_link n.x n.y p c.nodes in
      let rest : keyed d.nodes (before ++ after)
          ≡ delete (c.nodes q).key (keyed c.nodes (before ++ q ∷ after)) =
        keyed_same c.nodes d.nodes (before ++ after) key
        ∙ sym (delete-map (λ p. ((c.nodes p).key, p)) before after q h.unique) in
      let present : lookup (c.nodes q).key c.mp ≡ some q =
        h.sees (c.nodes q).key ∙ lookup-map (λ p. ((c.nodes p).key, p)) before after q h.unique in
      let shorter : suc (length (before ++ after)) ≡ length (before ++ q ∷ after) =
        omega (arith, length-append before after, length-append before (q ∷ after)) in
      let (made, _, made') = All-split (λ p. p < c.size) (c.head ∷ before) after q h.made in
      (
        d,
        remove_lem c q n.x n.y n.prev n.next n.x_q,
        record {
          head = refl;
          tail = refl;
          capacity = refl;
          key = key;
          value = λ p. value_link n.x n.y p c.nodes;
        },
        refl,
        refl,
        record {
          chain = n.without;
          made = All-append (λ p. p < c.size) (c.head ∷ before) after made made';
          tail_made = h.tail_made;
          sees = λ k.
              lookup-delete (c.nodes q).key k c.mp
              ∙ ap (λ (o : Option ℕ). if eqb (c.nodes q).key k then none else o) (h.sees k)
              ∙ sym (lookup-delete (c.nodes q).key k (keyed c.nodes (before ++ q ∷ after)))
              ∙ ap (lookup k) (sym rest);
          unique = rw rest (delete-IsUnique _ _ h.unique);
          unique_mp = delete-IsUnique _ _ h.unique_mp;
          size_mp =
              omega (
                arith,
                length-delete (c.nodes q).key q c.mp h.unique_mp present,
                h.size_mp,
                shorter,
              );
          room = omega (arith, h.room, shorter);
        },
      )
