-- ===== src/Visited/RoundTrip.antt =====
-- What is saved of the visited URLs is loaded again.
use monocle.Prelude.{
  ℕ, ◌^◌, ◌<◌, ◌≡◌, refl, sym, ◌∙◌, ap, inl, inr, Bool-cases, Option, none, some, List, [], ◌∷◌,
  ◌++◌, drop-append_length, All, if◌then◌else◌,
}
use monocle.Prelude.Assoc.{lookup}
use monocle.Prelude.Text.{Text, eqb, eqb_iff, eqb-append, append_cancel, has_prefix_iff}
use monocle.Prelude.Suffix.{trim_prefix}
use monocle.Prelude.Unicode.{ℤ, pos}
use monocle.Prelude.Decimal.{decimal, parse_int, parse_int-decimal}
use monocle.Store.{Store, IsStore, IsReliable}
use monocle.Prelude.Unique.{IsUnique}
use monocle.Store.Gather.{
  gather_lem, then_value, Decodes, All-lookup, scan_found, lookup-scan_prefix,
}
use monocle.Visited.{
  visited_prefix, decode_visited, load_visited_urls, save_visited_url, save_visited_urls,
}

abbrev pub visited_key : Text → Text
visited_key url = visited_prefix ++ url

trim_prefix-append : (prefix s : Text) → trim_prefix (prefix ++ s) prefix ≡ s
unfolding trim_prefix
trim_prefix-append prefix s =
    rw ((has_prefix_iff (prefix ++ s) prefix).1 (s, refl)) (drop-append_length prefix s)

decode_visited_lem :
    (url depth : Text) (d : ℤ)
    → parse_int depth ≡ some d
    → decode_visited (visited_key url) depth ≡ inr (url, d)
unfolding decode_visited
decode_visited_lem url depth d h =
    rw (decode_visited, h) (ap (λ u. inr (u, d)) (trim_prefix-append visited_prefix url))

-- A depth that is stored.
abbrev pub IsDepth : Text → Type 0
IsDepth v = (d : ℕ) × (v ≡ decimal d) × (d < 2 ^ 63)

-- What is stored for a URL: its saved depth, or what was there.
abbrev pub saved_or : Option ℕ → Option Text → Option Text
saved_or none old = old
saved_or (some d) old = some (decimal d)

-- The depth that a saved or an old entry stands for.
abbrev pub loaded : Option ℕ → Option Text → Option ℤ
loaded (some d) old = some (pos d)
loaded none old = then_value parse_int old none

loaded_lem :
    (o : Option ℕ) (old : Option Text)
    → ((d : ℕ) → o ≡ some d → d < 2 ^ 63)
    → then_value parse_int (saved_or o old) none ≡ loaded o old
loaded_lem none old small = refl
loaded_lem (some d) old small = parse_int-decimal d (small d refl)

module _ (Db : Type 0) (store : Store Db) (lawful : IsStore Db store)
    (reliable : IsReliable Db store) where
  get-save_visited_url :
      (url : Text) (depth : ℕ) (db : Db) (u : Text)
      → store.get (visited_key u) (save_visited_url Db store url depth db)
        ≡ (if eqb url u then some (decimal depth) else store.get (visited_key u) db)
  unfolding save_visited_url
  get-save_visited_url url depth db u =
      let (after, run) = reliable (visited_key url) (decimal depth) db in
      rw (save_visited_url, run)
        (lawful.get-set (visited_key url) (decimal depth) db after (visited_key u) run
          ∙ ap (λ b. if b then some (decimal depth) else store.get (visited_key u) db)
              (eqb-append visited_prefix url u))

  get-save_visited_urls :
      (visited : List (Text × ℕ)) (db : Db) (u : Text)
      → IsUnique visited
      → store.get (visited_key u) (save_visited_urls Db store visited db)
        ≡ saved_or (lookup u visited) (store.get (visited_key u) db)
  unfolding save_visited_urls lookup
  get-save_visited_urls [] db u unique = refl
  get-save_visited_urls ((url, d) ∷ visited) db u (fresh, unique) =
      get-save_visited_urls visited (save_visited_url Db store url d db) u unique
      ∙ ap (saved_or (lookup u visited)) (get-save_visited_url url d db u)
      ∙ elim (Bool-cases (eqb url u)) [
        | inl same ↦
            let absent : lookup u visited ≡ none =
              ap (λ x. lookup x visited) (sym ((eqb_iff url u).0 same)) ∙ fresh in
            rw (same, absent)
        | inr other ↦ rw other
      ]

  -- A store in which every visited key has a depth.
  abbrev pub HasDepths : Db → Type 0
  HasDepths db = (u v : Text) → store.get (visited_key u) db ≡ some v → IsDepth v

  IsDepth-saved_or :
      (o : Option ℕ) (old : Option Text) (v : Text)
      → ((d : ℕ) → o ≡ some d → d < 2 ^ 63)
      → ((w : Text) → old ≡ some w → IsDepth w)
      → saved_or o old ≡ some v
      → IsDepth v
  IsDepth-saved_or none old v small h e = h v e
  IsDepth-saved_or (some d) old v small h e = (d, cc, small d refl)

  entries-Decodes :
      (db : Db)
      → HasDepths db
      → All (Decodes decode_visited visited_key parse_int) (store.scan visited_prefix db)
  entries-Decodes db h =
      All-lookup (Decodes decode_visited visited_key parse_int) (store.scan visited_prefix db)
        (lawful.scan-IsUnique visited_prefix db)
        (λ k v found.
          let (url, named, got) = scan_found Db store lawful visited_prefix k v db found in
          let (d, printed, small) = h url v got in
          let read : parse_int v ≡ some (pos d) =
            ap parse_int printed ∙ parse_int-decimal d small in
          (
            url,
            pos d,
            named,
            ap (λ x. decode_visited x v) named ∙ decode_visited_lem url v (pos d) read,
            read,
          ))

  -- Where every write succeeds, no saved URL stands twice, depths are below 2^63 and every visited entry that was
  -- stored is a depth, loading what was saved gives no error, each saved URL with its depth and each other URL with the
  -- depth that was stored for it.
  pub load_visited_urls-save_visited_urls :
      (visited : List (Text × ℕ)) (db : Db)
      → IsUnique visited
      → ((u : Text) (d : ℕ) → lookup u visited ≡ some d → d < 2 ^ 63)
      → HasDepths db
      → (out : List (Text × ℤ)) × (load_visited_urls Db store []
            (save_visited_urls Db store visited db)
          ≡ (out, none))
        × ((u : Text) → lookup u out ≡ loaded (lookup u visited) (store.get (visited_key u) db))
  unfolding load_visited_urls
  load_visited_urls-save_visited_urls visited db unique small h =
      let after = save_visited_urls Db store visited db in
      let stored : HasDepths after = λ u v got.
        IsDepth-saved_or (lookup u visited) (store.get (visited_key u) db) v (small u) (h u)
          (sym (get-save_visited_urls visited db u unique) ∙ got) in
      let (out, run, found) =
        gather_lem decode_visited visited_key parse_int (store.scan visited_prefix after) []
          (append_cancel visited_prefix) (lawful.scan-IsUnique visited_prefix after)
          (entries-Decodes after stored) in
      (
        out,
        run,
        λ u.
            found u
            ∙ ap (λ o. then_value parse_int o (lookup u []))
                (lookup-scan_prefix Db store lawful visited_prefix u after
                  ∙ get-save_visited_urls visited db u unique)
            ∙ unfold lookup in
              loaded_lem (lookup u visited) (store.get (visited_key u) db) (small u),
      )
