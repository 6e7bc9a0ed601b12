-- ===== src/LruCache/Chain.antt =====
-- The doubly linked list of the nodes, and what unlinking and linking a node does to it.
use monocle.Prelude.{
  All-map, All-split, ℕ, ◌≡◌, ◌≢◌, refl, sym, ◌∙◌, ap, ◌==◌, if◌then◌else◌, some, List, [], ◌∷◌,
  ◌++◌, All, All-append, arith,
}
use monocle.LruCache.{Node, set_next, set_prev}

module _ {V : Type 0} where
  -- The addresses `ps` are linked between `p` and `t`, both ways, and no address occurs twice.
  abbrev pub Chain : (ℕ → Node V) → ℕ → List ℕ → ℕ → Type 0
  Chain nodes p [] t = ((nodes p).next ≡ some t) × ((nodes t).prev ≡ some p) × (p ≢ t)
  Chain nodes p (q ∷ qs) t =
      (((nodes p).next ≡ some q) × ((nodes q).prev ≡ some p) × All (λ z. p ≢ z) (q ∷ qs) × (p ≢ t))
      × Chain nodes q qs t

  pub Chain-distinct :
      (nodes : ℕ → Node V) (p : ℕ) (ps : List ℕ) (t : ℕ)
      → Chain nodes p ps t
      → All (λ z. p ≢ z) ps × (p ≢ t)
  Chain-distinct nodes p [] t h = (tt, h.2)
  Chain-distinct nodes p (q ∷ qs) t h = (h.0.2, h.0.3)

  -- `x.next = y; y.prev = x`
  abbrev pub link : ℕ → ℕ → (ℕ → Node V) → ℕ → Node V
  link x y nodes = set_prev y (some x) (set_next x (some y) nodes)

  pub next_link :
      (x y z : ℕ) (nodes : ℕ → Node V)
      → (link x y nodes z).next ≡ (if x == z then some y else (nodes z).next)
  unfolding set_next set_prev
  next_link x y z nodes = ground arith

  pub prev_link :
      (x y z : ℕ) (nodes : ℕ → Node V)
      → (link x y nodes z).prev ≡ (if y == z then some x else (nodes z).prev)
  unfolding set_next set_prev
  prev_link x y z nodes = ground arith

  other_next : (x y z : ℕ) (nodes : ℕ → Node V) → x ≢ z → (link x y nodes z).next ≡ (nodes z).next
  other_next x y z nodes h = ground (arith, next_link x y z nodes, h)

  other_prev : (x y z : ℕ) (nodes : ℕ → Node V) → y ≢ z → (link x y nodes z).prev ≡ (nodes z).prev
  other_prev x y z nodes h = ground (arith, prev_link x y z nodes, h)

  pub Chain-frame :
      (nodes after : ℕ → Node V) (p : ℕ) (ps : List ℕ) (t : ℕ)
      → All (λ z. (after z).next ≡ (nodes z).next) (p ∷ ps)
      → All (λ z. (after z).prev ≡ (nodes z).prev) ps
      → (after t).prev ≡ (nodes t).prev
      → Chain nodes p ps t
      → Chain after p ps t
  Chain-frame nodes after p [] t nexts prevs last h = (nexts.0 ∙ h.0, last ∙ h.1, h.2)
  Chain-frame nodes after p (q ∷ qs) t nexts prevs last h = (
    (nexts.0 ∙ h.0.0, prevs.0 ∙ h.0.1, h.0.2, h.0.3),
    Chain-frame nodes after q qs t nexts.1 prevs.1 last h.1,
  )

  link_frame :
      (x y p : ℕ) (ps : List ℕ) (t : ℕ) (nodes : ℕ → Node V)
      → All (λ z. x ≢ z) (p ∷ ps)
      → All (λ z. y ≢ z) ps
      → y ≢ t
      → Chain nodes p ps t
      → Chain (link x y nodes) p ps t
  link_frame x y p ps t nodes hx hy yt =
      Chain-frame nodes (link x y nodes) p ps t
        (All-map (λ z h. other_next x y z nodes h) (p ∷ ps) hx)
        (All-map (λ z h. other_prev x y z nodes h) ps hy) (other_prev x y t nodes yt)

  -- The neighbours of a node, and the list without it.
  pub record Neighbours (nodes : ℕ → Node V) (p q t : ℕ) (before after : List ℕ) : Type 0 where
    pub x : ℕ
    pub y : ℕ
    pub prev : (nodes q).prev ≡ some x
    pub next : (nodes q).next ≡ some y
    pub not_x : (z : ℕ) → z ≢ p → All (λ w. z ≢ w) before → z ≢ x
    pub not_y : (z : ℕ) → All (λ w. z ≢ w) after → z ≢ t → z ≢ y
    pub x_q : x ≢ q
    pub without : Chain (link x y nodes) p (before ++ after) t

  unlink_first :
      (nodes : ℕ → Node V) (p q t : ℕ) (after : List ℕ)
      → Chain nodes p (q ∷ after) t
      → Neighbours nodes p q t [] after
  unlink_first nodes p q t [] h = record {
    x = p;
    y = t;
    prev = h.0.1;
    next = h.1.0;
    not_x = λ z e all. e;
    not_y = λ z all e. e;
    x_q = h.0.2.0;
    without = (ground (arith, next_link p t p nodes), ground (arith, prev_link p t t nodes), h.0.3);
  }
  unlink_first nodes p q t (b ∷ bs) h = record {
    x = p;
    y = b;
    prev = h.0.1;
    next = h.1.0.0;
    not_x = λ z e all. e;
    not_y = λ z all e. all.0;
    x_q = h.0.2.0;
    without = (
      (
        ground (arith, next_link p b p nodes),
        ground (arith, prev_link p b b nodes),
        h.0.2.1,
        h.0.3,
      ),
      (let (apart, last) = Chain-distinct nodes b bs t h.1.1 in
          link_frame p b b bs t nodes h.0.2.1 apart last h.1.1),
    );
  }

  pub unlink :
      (nodes : ℕ → Node V) (p q t : ℕ) (before after : List ℕ)
      → Chain nodes p (before ++ q ∷ after) t
      → Neighbours nodes p q t before after
  unlink nodes p q t [] after h = unlink_first nodes p q t after h
  unlink nodes p q t (a ∷ before) after h =
      let n = unlink nodes a q t before after h.1 in
      let (apart, last) = Chain-distinct nodes a (before ++ q ∷ after) t h.1 in
      let (_, _, behind) = All-split (λ z. a ≢ z) before after q apart in
      let (not_before, not_q, not_after) = All-split (λ z. p ≢ z) (a ∷ before) after q h.0.2 in
      record {
        x = n.x;
        y = n.y;
        prev = n.prev;
        next = n.next;
        not_x = λ z e all. n.not_x z all.0 all.1;
        not_y = n.not_y;
        x_q = n.x_q;
        without = (
          (
            other_next n.x n.y p nodes (λ e. n.not_x p not_before.0 not_before.1 (sym e)) ∙ h.0.0,
            other_prev n.x n.y a nodes (λ e. n.not_y a behind last (sym e)) ∙ h.0.1,
            All-append (λ z. p ≢ z) (a ∷ before) after not_before not_after,
            h.0.3,
          ),
          n.without,
        );
      }

  -- A new node behind the first one.
  pub link_new :
      (nodes : ℕ → Node V) (p q t : ℕ) (ps : List ℕ)
      → All (λ z. q ≢ z) (p ∷ ps)
      → q ≢ t
      → Chain nodes p ps t
      → (y : ℕ) × ((nodes p).next ≡ some y) × Chain (link q y (link p q nodes)) p (q ∷ ps) t
  link_new nodes p q t [] hq qt h = (
    t,
    h.0,
    (
      (
        other_next q t p (link p q nodes) hq.0 ∙ ground (arith, next_link p q p nodes),
        other_prev q t q (link p q nodes) (λ e. qt (sym e)) ∙ ground (arith, prev_link p q q nodes),
        ((λ e. hq.0 (sym e)), tt),
        h.2,
      ),
      (
        ground (arith, next_link q t q (link p q nodes)),
        ground (arith, prev_link q t t (link p q nodes)),
        qt,
      ),
    ),
  )
  link_new nodes p q t (b ∷ bs) hq qt h =
      let (apart, last) = Chain-distinct nodes b bs t h.1 in
      (
        b,
        h.0.0,
        (
          (
            other_next q b p (link p q nodes) hq.0 ∙ ground (arith, next_link p q p nodes),
            other_prev q b q (link p q nodes) (λ e. hq.1.0 (sym e))
                ∙ ground (arith, prev_link p q q nodes),
            ((λ e. hq.0 (sym e)), h.0.2),
            h.0.3,
          ),
          (
            (
              ground (arith, next_link q b q (link p q nodes)),
              ground (arith, prev_link q b b (link p q nodes)),
              hq.1,
              qt,
            ),
            link_frame q b b bs t (link p q nodes) hq.1 apart last
                (link_frame p q b bs t nodes h.0.2 hq.1.1 qt h.1),
          ),
        ),
      )

  -- The last node, which the second sentinel points back to.
  pub Chain-last :
      (nodes : ℕ → Node V) (p : ℕ) (q : ℕ) (qs : List ℕ) (t : ℕ)
      → Chain nodes p (q ∷ qs) t
      → (before : List ℕ) × (last : ℕ) × (q ∷ qs ≡ before ++ last ∷ [])
        × ((nodes t).prev ≡ some last)
  Chain-last nodes p q [] t h = ([], q, refl, h.1.1)
  Chain-last nodes p q (r ∷ rs) t h =
      let (before, last, e, back) = Chain-last nodes q r rs t h.1 in
      (q ∷ before, last, ap (◌∷◌ q) e, back)

  pub Chain-fresh :
      (nodes : ℕ → Node V) (p q t : ℕ) (before after : List ℕ)
      → Chain nodes p (before ++ q ∷ after) t
      → All (λ z. q ≢ z) (p ∷ before ++ after) × (q ≢ t)
  Chain-fresh nodes p q t [] after h =
      let (apart, last) = Chain-distinct nodes q after t h.1 in
      (((λ e. h.0.2.0 (sym e)), apart), last)
  Chain-fresh nodes p q t (a ∷ before) after h =
      let (apart, last) = Chain-fresh nodes a q t before after h.1 in
      let (_, not_q, _) = All-split (λ z. p ≢ z) (a ∷ before) after q h.0.2 in
      (((λ e. not_q (sym e)), apart), last)
