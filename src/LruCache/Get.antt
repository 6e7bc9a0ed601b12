-- ===== src/LruCache/Get.antt =====
-- What a lookup does to the list of the entries.
use monocle.Prelude.{
  All-split, ℕ, ◌≡◌, ◌≢◌, ◌<◌, refl, sym, ◌∙◌, ap, inl, inr, Option, Option-cases, none, some, List,
  ◌∷◌, ◌++◌, All, arith, length-append,
}
use mathlib.Core.Path.{subst}
use monocle.Prelude.Assoc.{lookup, delete, lookup-delete}
use monocle.Prelude.Text.{Text, eqb_refl}
use monocle.LruCache.{LruCache, remove, insert_node, get}
use monocle.LruCache.Chain.{Chain-fresh}
use monocle.LruCache.Recent.{
  absent_lem, present_lem, get_recent, contents, IsCache, IsLike, contents_same,
}
use monocle.LruCache.Remove.{remove-IsCache}
use monocle.LruCache.Insert.{IsReady, insert_node-IsCache}

module _ {V : Type 0} where
  -- The cache holds the entries `xs`, the last used one first.
  pub record Holds (xs : List (Text × Option V)) (c : LruCache V) : Type 0 where
    pub nodes : List ℕ
    pub cache : IsCache c nodes
    pub entries : contents c.nodes nodes ≡ xs

  moved_IsReady :
      (c d : LruCache V) (before after : List ℕ) (p : ℕ)
      → IsCache c (before ++ p ∷ after)
      → IsLike c d
      → d.size ≡ c.size
      → d.mp ≡ delete (c.nodes p).key c.mp
      → IsReady d (before ++ after) p
  moved_IsReady c d before after p h like size mp =
      let (apart, not_tail) = Chain-fresh c.nodes c.head p c.tail before after h.chain in
      let (_, made, _) = All-split (λ z. z < c.size) (c.head ∷ before) after p h.made in
      record {
        apart = subst (λ x. All (λ z. p ≢ z) (x ∷ before ++ after)) (sym like.head) apart;
        not_tail = λ e. not_tail (e ∙ like.tail);
        made = omega (arith, made, size);
        absent =
            ap (lookup (d.nodes p).key) mp
            ∙ lookup-delete (c.nodes p).key (d.nodes p).key c.mp
            ∙ rw (like.key p, eqb_refl (c.nodes p).key) refl;
        room = omega (
          arith,
          h.room,
          like.capacity,
          length-append before after,
          length-append before (p ∷ after),
        );
      }

  IsLike-trans : (c d e : LruCache V) → IsLike c d → IsLike d e → IsLike c e
  IsLike-trans c d e f g = record {
    head = g.head ∙ f.head;
    tail = g.tail ∙ f.tail;
    capacity = g.capacity ∙ f.capacity;
    key = λ p. g.key p ∙ f.key p;
    value = λ p. g.value p ∙ f.value p;
  }

  get_found :
      (k : Text) (c d e : LruCache V) (p : ℕ)
      → lookup k c.mp ≡ some p
      → remove p c ≡ some d
      → insert_node p d ≡ some e
      → get k c ≡ some (e, (e.nodes p).value)
  unfolding get
  get_found k c d e p present removed inserted = rw (get, present, removed, inserted) refl

  get_recent_lem :
      (k : Text) (v : Option V) (xs : List (Text × Option V))
      → lookup k xs ≡ some v
      → get_recent k xs ≡ ((k, v) ∷ delete k xs, v)
  get_recent_lem k v xs e = rw (get_recent, e) refl

  pub get_lem :
      (k : Text) (xs : List (Text × Option V)) (c : LruCache V)
      → Holds xs c
      → (d : LruCache V) × (get k c ≡ some (d, (get_recent k xs).1))
        × (d.capacity ≡ c.capacity)
        × Holds (get_recent k xs).0 d
  unfolding get
  get_lem k xs c h = elim (Option-cases (lookup k c.mp)) [
    | inl absent ↦
        let missing : lookup k xs ≡ none =
          ap (lookup k) (sym h.entries) ∙ absent_lem c h.nodes h.cache k absent in
        let same : get_recent k xs ≡ (xs, none) = rw (get_recent, missing) refl in
        (
          c,
          rw (get, absent) (ap (λ r. some (c, r.1)) (sym same)),
          refl,
          subst (λ r. Holds r.0 c) (sym same) h,
        )
    | inr (p, present) ↦
        let (before, after, split, key, value, rest) = present_lem c h.nodes h.cache k p present in
        let whole = subst (λ qs. IsCache c qs) split h.cache in
        let (d, removed, like, size, mp, d_is) = remove-IsCache c before after p whole in
        let (e, inserted, like', size', e_is) =
          insert_node-IsCache d (before ++ after) p d_is
            (moved_IsReady c d before after p whole like size mp) in
        let all = IsLike-trans c d e like like' in
        let same : get_recent k xs ≡ ((k, (c.nodes p).value) ∷ delete k xs, (c.nodes p).value) =
          get_recent_lem k _ xs (ap (lookup k) (sym h.entries) ∙ value) in
        (
          e,
          get_found k c d e p present removed inserted
              ∙ ap (λ v. some (e, v)) (all.value p ∙ sym (ap (λ r. r.1) same)),
          all.capacity,
          record {
            nodes = p ∷ before ++ after;
            cache = e_is;
            entries =
                contents_same c e (p ∷ before ++ after) all
                ∙ rw (key, sym rest, h.entries) (sym (ap (λ r. r.0) same));
          },
        )
  ]
