-- ===== src/LruCache/Room.antt =====
-- Making room for an entry: the removals of `Put`.
use monocle.Prelude.{
  ℕ, suc, ◌≡◌, ◌<◌, refl, sym, ◌∙◌, ap, inl, inr, true, false, ◌==◌, if◌then◌else◌, Bool,
  Bool-cases, Option, Option-cases, List-cases, none, some, List, [], ◌∷◌, ◌++◌, arith, length,
  length-append, map, append-nil,
}
use mathlib.Core.Path.{subst}
use monocle.Prelude.Assoc.{lookup, delete, lookup-delete}
use monocle.Prelude.Unique.{delete_absent}
use monocle.Prelude.Text.{Text, eqb_refl}
use monocle.LruCache.{LruCache, remove, remove_key, remove_oldest}
use monocle.LruCache.Chain.{Chain, Chain-last}
use monocle.LruCache.Recent.{absent_lem, present_lem, without_last, IsCache, contents_same}
use monocle.LruCache.Remove.{remove-IsCache}
use monocle.LruCache.Get.{Holds}

length-map : {A B : Type 0} (f : A → B) (xs : List A) → length (map f xs) ≡ length xs
length-map f [] = refl
length-map f (x ∷ xs) = ap suc (length-map f xs)

module _ {V : Type 0} where
  without_last-map :
      (f : ℕ → Text × Option V) (before : List ℕ) (p : ℕ)
      → without_last (map f (before ++ p ∷ [])) ≡ map f before
  without_last-map f [] p = refl
  without_last-map f (q ∷ []) p = refl
  without_last-map f (q ∷ r ∷ before) p = ap (◌∷◌ (f q)) (without_last-map f (r ∷ before) p)

  pub remove_key_lem :
      (k : Text) (xs : List (Text × Option V)) (c : LruCache V)
      → Holds xs c
      → (d : LruCache V) × (remove_key k c ≡ some d)
        × (d.capacity ≡ c.capacity)
        × Holds (delete k xs) d
        × (lookup k d.mp ≡ none)
  unfolding remove_key
  remove_key_lem k xs c h = elim (Option-cases (lookup k c.mp)) [
    | inl absent ↦
        let missing : lookup k xs ≡ none =
          ap (lookup k) (sym h.entries) ∙ absent_lem c h.nodes h.cache k absent in
        (
          c,
          rw (remove_key, absent) refl,
          refl,
          subst (λ ys. Holds ys c) (sym (delete_absent k xs missing)) h,
          absent,
        )
    | inr (p, present) ↦
        let (before, after, split, key, value, rest) = present_lem c h.nodes h.cache k p present in
        let (d, removed, like, size, mp, d_is) =
          remove-IsCache c before after p (subst (λ qs. IsCache c qs) split h.cache) in
        (
          d,
          rw (remove_key, present) removed,
          like.capacity,
          record {
            nodes = before ++ after;
            cache = d_is;
            entries = contents_same c d (before ++ after) like ∙ sym rest ∙ ap (delete k) h.entries;
          },
          ap (lookup k) mp ∙ lookup-delete (c.nodes p).key k c.mp ∙ rw (key, eqb_refl k) refl,
        )
  ]

  -- The list without its last entry where it is full.
  abbrev pub trimmed : ℕ → List (Text × Option V) → List (Text × Option V)
  trimmed capacity xs = if length xs == capacity then without_last xs else xs

  -- The entries `xs`, and room for one more.
  pub record HasRoom (xs : List (Text × Option V)) (c : LruCache V) : Type 0 where
    pub holds : Holds xs c
    pub room : length holds.nodes < c.capacity

  -- What is left when the oldest entry of a full cache is gone.
  full_lem :
      (xs : List (Text × Option V)) (c : LruCache V) (before : List ℕ) (last : ℕ)
      → (h : Holds xs c) → h.nodes ≡ before ++ last ∷ []
      → (d : LruCache V) × (remove last c ≡ some d)
        × (d.capacity ≡ c.capacity)
        × (d.mp ≡ delete (c.nodes last).key c.mp)
        × HasRoom (without_last xs) d
  full_lem xs c before last h split =
      let whole = subst (λ qs. IsCache c qs) split h.cache in
      let (d, removed, like, size, mp, d_is) = remove-IsCache c before [] last whole in
      let f : ℕ → Text × Option V = λ p. ((c.nodes p).key, (c.nodes p).value) in
      (
        d,
        removed,
        like.capacity,
        mp,
        record {
          holds = record {
            nodes = before ++ [];
            cache = d_is;
            entries =
                contents_same c d (before ++ []) like
                ∙ ap (map f) (append-nil before)
                ∙ sym (without_last-map f before last)
                ∙ ap (λ qs. without_last (map f qs)) (sym split)
                ∙ ap without_last h.entries;
          };
          room = omega (
            arith,
            whole.room,
            like.capacity,
            length-append before [],
            length-append before (last ∷ []),
          );
        },
      )

  trimmed_lem :
      (xs : List (Text × Option V)) (c : LruCache V) (b : Bool)
      → Holds xs c
      → (length c.mp == c.capacity) ≡ b
      → trimmed c.capacity xs ≡ (if b then without_last xs else xs)
  trimmed_lem xs c b h e =
      let same : length xs ≡ length c.mp =
        ap length (sym h.entries) ∙ length-map _ h.nodes ∙ sym h.cache.size_mp in
      rw (trimmed, same, e) refl

  pub remove_oldest_lem :
      (k : Text) (xs : List (Text × Option V)) (c : LruCache V)
      → Holds xs c
      → 0 < c.capacity
      → lookup k c.mp ≡ none
      → (d : LruCache V) × (remove_oldest c ≡ some d)
        × (d.capacity ≡ c.capacity)
        × (lookup k d.mp ≡ none)
        × HasRoom (trimmed c.capacity xs) d
  unfolding remove_oldest
  remove_oldest_lem k xs c h positive absent = elim (Bool-cases (length c.mp == c.capacity)) [
    | inr room ↦ (
      c,
      rw (remove_oldest, room) refl,
      refl,
      absent,
      rw (trimmed_lem xs c false h room)
          (record { holds = h; room = ground (arith, room, h.cache.room, h.cache.size_mp) }),
    )
    | inl full ↦ elim (List-cases h.nodes) [
      | inl empty ↦ absurd (ground (arith, full, positive, h.cache.size_mp, ap length empty))
      | inr (q, qs, some_node) ↦
          let (before, last, split, back) =
            Chain-last c.nodes c.head q qs c.tail
              (subst (λ ps. Chain c.nodes c.head ps c.tail) some_node h.cache.chain) in
          let (d, removed, capacity, mp, r) = full_lem xs c before last h (some_node ∙ split) in
          (
            d,
            rw (remove_oldest, full, back) removed,
            capacity,
            ap (lookup k) mp ∙ lookup-delete (c.nodes last).key k c.mp ∙ ground (arith, absent),
            rw (trimmed_lem xs c true h full) r,
          )
    ]
  ]
