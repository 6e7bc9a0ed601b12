-- ===== src/Store/Gather.antt =====
-- A loop over the entries of a scan that decodes each into a map, and stops at the first error.
use monocle.Prelude.{
  ◌≡◌, refl, sym, ◌∙◌, ap, ◌⊎◌, true, false, Bool-cases, inl, inr, Option, none, some, List, [],
  ◌∷◌, ◌++◌, if◌then◌else◌, arith, All,
}
use monocle.Prelude.Assoc.{lookup, insert, lookup-insert}
use monocle.Prelude.Text.{Text, eqb, eqb_iff, eqb_refl, has_prefix, has_prefix_iff}
use monocle.Store.{Store, IsStore, Failure}
use monocle.Prelude.Unique.{IsUnique}

-- What the decoded map has for a stored value.
abbrev pub then_value : {A : Type 0} → (Text → Option A) → Option Text → Option A → Option A
then_value value none old = old
then_value value (some v) old = value v

Sum-cases : {E A : Type 0} (x : E ⊎ A) → ((e : E) × (x ≡ inl e)) ⊎ ((a : A) × (x ≡ inr a))
Sum-cases (inl e) = inl (e, refl)
Sum-cases (inr a) = inr (a, refl)

module _ {A : Type 0} (decode : Text → Text → Failure ⊎ (Text × A)) where
  -- The map, with the error.
  unfoldable pub gather : List (Text × Text) → List (Text × A) → List (Text × A) × Option Failure
  gather [] m = (m, none)
  gather ((k, v) ∷ entries) m = elim (decode k v) [
    | inl e ↦ (m, some e)
    | inr (j, a) ↦ gather entries (insert j a m)
  ]

  -- An entry that decodes to its name and its value.
  abbrev pub Decodes : (Text → Text) → (Text → Option A) → Text × Text → Type 0
  Decodes key value (k, v) =
      (j : Text) × (a : A) × (k ≡ key j) × (decode k v ≡ inr (j, a)) × (value v ≡ some a)

  gather_step :
      (k v : Text) (entries : List (Text × Text)) (m : List (Text × A)) (j : Text) (a : A)
      → decode k v ≡ inr (j, a)
      → gather ((k, v) ∷ entries) m ≡ gather entries (insert j a m)
  unfolding gather
  gather_step k v entries m j a h = rw (gather, h)

  lookup-cons :
      (j k v : Text) (entries : List (Text × Text))
      → lookup j ((k, v) ∷ entries) ≡ (if eqb k j then some v else lookup j entries)
  unfolding lookup
  lookup-cons j k v entries = refl

  -- One more entry, looked up under a name.
  one_more :
      (key : Text → Text) (value : Text → Option A) (k v : Text) (entries : List (Text × Text))
      (m : List (Text × A)) (i j : Text) (a : A)
      → (key i ≡ key j → i ≡ j)
      → lookup k entries ≡ none
      → k ≡ key i
      → value v ≡ some a
      → then_value value (lookup (key j) entries) (lookup j (insert i a m))
        ≡ then_value value (lookup (key j) ((k, v) ∷ entries)) (lookup j m)
  one_more key value k v entries m i j a injective fresh named valued =
      elim (Bool-cases (eqb i j)) [
        | inl same ↦
            let k=key : k ≡ key j = named ∙ ap key ((eqb_iff i j).0 same) in
            let absent : lookup (key j) entries ≡ none =
              ap (λ x. lookup x entries) (sym k=key) ∙ fresh in
            let here : eqb k (key j) ≡ true = (eqb_iff k (key j)).1 k=key in
            rw (lookup-insert i j a m, lookup-cons (key j) k v entries, same, absent, here)
              (sym valued)
        | inr other ↦
            let elsewhere : eqb k (key j) ≡ false = elim (Bool-cases (eqb k (key j))) [
              | inl same ↦
                  let i=j : i ≡ j = injective (sym named ∙ (eqb_iff k (key j)).0 same) in
                  let e : eqb i j ≡ true = (eqb_iff i j).1 i=j in absurd cc
              | inr e ↦ e
            ] in
            rw (lookup-insert i j a m, lookup-cons (key j) k v entries, other, elsewhere)
      ]

  -- Where every entry decodes and no key stands twice, there is no error, and the map has the value of each entry
  -- under its name.
  pub gather_lem :
      (key : Text → Text) (value : Text → Option A) (entries : List (Text × Text))
      (m : List (Text × A))
      → ((i j : Text) → key i ≡ key j → i ≡ j)
      → IsUnique entries
      → All (Decodes key value) entries
      → (out : List (Text × A)) × (gather entries m ≡ (out, none))
        × ((j : Text) → lookup j out ≡ then_value value (lookup (key j) entries) (lookup j m))
  gather_lem key value [] m injective unique h =
      (m, unfold gather in refl, λ j. unfold lookup in refl)
  gather_lem key value ((k, v) ∷ entries) m injective (fresh, unique)
        ((i, a, named, decoded, valued), h) =
      let (out, run, found) = gather_lem key value entries (insert i a m) injective unique h in
      (
        out,
        gather_step k v entries m i a decoded ∙ run,
        λ j. found j ∙ one_more key value k v entries m i j a (injective i j) fresh named valued,
      )

  gather_fails :
      (k v : Text) (entries : List (Text × Text)) (m : List (Text × A)) (e : Failure)
      → decode k v ≡ inl e
      → (gather ((k, v) ∷ entries) m).1 ≡ some e
  unfolding gather
  gather_fails k v entries m e h = rw (gather, h)

  -- Where the value of some key does not decode, there is an error.
  pub gather-error :
      (entries : List (Text × Text)) (m : List (Text × A)) (k v : Text) (e : Failure)
      → lookup k entries ≡ some v
      → decode k v ≡ inl e
      → (e' : Failure) × ((gather entries m).1 ≡ some e')
  gather-error [] m k v e h bad = absurd (unfold lookup in cc)
  gather-error ((j, w) ∷ entries) m k v e h bad = elim (Sum-cases (decode j w)) [
    | inl (e', fails) ↦ (e', gather_fails j w entries m e' fails)
    | inr ((i, a), decoded) ↦ elim (Bool-cases (eqb j k)) [
      | inl same ↦
          let w=v : some w ≡ some v = (rw (lookup-cons k j w entries, same)) ∙ h in
          let j=k : j ≡ k = (eqb_iff j k).0 same in absurd cc
      | inr other ↦
          let (e', later) =
            gather-error entries (insert i a m) k v e
              (sym (rw (lookup-cons k j w entries, other)) ∙ h) bad in
          (e', ap (λ x. x.1) (gather_step j w entries m i a decoded) ∙ later)
    ]
  ]

-- What holds of every key that is found holds of every entry.
pub All-lookup :
    (P : Text × Text → Type 0) (entries : List (Text × Text))
    → IsUnique entries
    → ((k v : Text) → lookup k entries ≡ some v → P (k, v))
    → All P entries
unfolding lookup
All-lookup P [] unique h = tt
All-lookup P ((k, v) ∷ entries) (fresh, unique) h = (
  h k v (ground (arith, eqb_refl k)),
  All-lookup P entries unique (λ j w found. h j w (elim (Bool-cases (eqb k j)) [
    | inl same ↦
        let e : lookup k entries ≡ lookup j entries =
          ap (λ x. lookup x entries) ((eqb_iff k j).0 same) in
        absurd cc
    | inr other ↦ rw other found
  ])),
)

nothing_found :
    (entries : List (Text × Text)) → ((k v : Text) → lookup k entries ≡ some v → ⊥) → entries ≡ []
unfolding lookup
nothing_found [] h = refl
nothing_found ((k, v) ∷ entries) h = absurd (h k v (ground (arith, eqb_refl k)))

module _ (Db : Type 0) (store : Store Db) (lawful : IsStore Db store) where
  -- A key with the prefix is found by the scan as by a read.
  pub lookup-scan_prefix :
      (prefix rest : Text) (db : Db)
      → lookup (prefix ++ rest) (store.scan prefix db) ≡ store.get (prefix ++ rest) db
  lookup-scan_prefix prefix rest db =
      lawful.lookup-scan prefix db (prefix ++ rest)
      ∙ ap (λ b. if b then store.get (prefix ++ rest) db else none)
          ((has_prefix_iff (prefix ++ rest) prefix).1 (rest, refl))

  -- What a scan finds has the prefix, and is stored.
  pub scan_found :
      (prefix k v : Text) (db : Db)
      → lookup k (store.scan prefix db) ≡ some v
      → (rest : Text) × (k ≡ prefix ++ rest) × (store.get (prefix ++ rest) db ≡ some v)
  scan_found prefix k v db h = elim (Bool-cases (has_prefix k prefix)) [
    | inl starts ↦
        let (rest, e) = (has_prefix_iff k prefix).0 starts in
        (
          rest,
          e,
          sym (lookup-scan_prefix prefix rest db)
              ∙ ap (λ x. lookup x (store.scan prefix db)) (sym e)
              ∙ h,
        )
    | inr other ↦
        let missing : lookup k (store.scan prefix db) ≡ none =
          lawful.lookup-scan prefix db k ∙ ap (λ b. if b then store.get k db else none) other in
        absurd cc
  ]

  -- Where nothing with the prefix is stored, the scan is empty.
  pub scan_empty :
      (prefix : Text) (db : Db)
      → ((rest : Text) → store.get (prefix ++ rest) db ≡ none)
      → store.scan prefix db ≡ []
  scan_empty prefix db h = nothing_found (store.scan prefix db) (λ k v found.
      let (rest, _, got) = scan_found prefix k v db found in
      let missing : store.get (prefix ++ rest) db ≡ none = h rest in absurd cc)
