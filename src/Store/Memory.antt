-- ===== src/Store/Memory.antt =====
-- A store in memory, which meets the interface.
use monocle.Prelude.{
  ◌≡◌, refl, sym, ◌∙◌, ap, Bool-cases, inl, inr, Option, none, some, List, [], ◌∷◌, if◌then◌else◌,
  arith,
}
use monocle.Prelude.Assoc.{lookup, insert, lookup-insert}
use monocle.Prelude.Text.{Text, eqb, eqb_iff, has_prefix}
use monocle.Store.{Store, IsStore, IsReliable}
use monocle.Prelude.Unique.{IsUnique, insert-IsUnique}

pub record Memory : Type 0 where
  pub entries : List (Text × Text)
  pub unique : IsUnique entries

abbrev pub under : Text → List (Text × Text) → List (Text × Text)
under prefix [] = []
under prefix ((k, v) ∷ m) = if has_prefix k prefix then (k, v) ∷ under prefix m else under prefix m

lookup-under :
    (prefix : Text) (m : List (Text × Text)) (k : Text)
    → lookup k (under prefix m) ≡ (if has_prefix k prefix then lookup k m else none)
unfolding lookup
lookup-under prefix [] k = ground arith
lookup-under prefix ((j, w) ∷ m) k = elim (Bool-cases (eqb j k)) [
  | inl same ↦
      let e : has_prefix j prefix ≡ has_prefix k prefix =
        ap (λ x. has_prefix x prefix) ((eqb_iff j k).0 same) in
      ground (arith, same, e, lookup-under prefix m k)
  | inr other ↦ ground (arith, other, lookup-under prefix m k)
]

pub under-IsUnique :
    (prefix : Text) (m : List (Text × Text)) → IsUnique m → IsUnique (under prefix m)
under-IsUnique prefix [] h = tt
under-IsUnique prefix ((k, v) ∷ m) (fresh, h) = elim (Bool-cases (has_prefix k prefix)) [
  | inl starts ↦
      rw starts (lookup-under prefix m k ∙ ground (arith, starts, fresh), under-IsUnique prefix m h)
  | inr other ↦ rw other (under-IsUnique prefix m h)
]

abbrev pub memory : Store Memory
memory = record {
  get = λ k db. lookup k db.entries;
  set = λ k v db. some (record {
    entries = insert k v db.entries;
    unique = insert-IsUnique k v db.entries db.unique;
  });
  scan = λ prefix db. under prefix db.entries;
}

abbrev pub empty : Memory
empty = record { entries = []; unique = tt }

read : Text → Option Memory → Option Text
read j none = none
read j (some db) = lookup j db.entries

pub memory-IsStore : IsStore Memory memory
unfolding read
memory-IsStore = record {
  get-set = λ k v db after j e. ap (read j) (sym e) ∙ lookup-insert k j v db.entries;
  lookup-scan = λ prefix db k. lookup-under prefix db.entries k;
  scan-IsUnique = λ prefix db. under-IsUnique prefix db.entries db.unique;
}

pub memory-IsReliable : IsReliable Memory memory
memory-IsReliable k v db = (_, refl)
