-- ===== src/Store.antt =====
-- The key-value store under internal/repository (package badger), as an interface. Keys and values are bytes.
pub mod Memory
pub mod Gather
use monocle.Prelude.{◌≡◌, false, Option, none, some, List, [], ◌∷◌, map, if◌then◌else◌, true}
use monocle.Prelude.Assoc.{lookup}
use monocle.Prelude.Unique.{IsUnique}
use monocle.Prelude.Text.{Text, eqb, has_prefix}

-- `get` is Txn.Get, without a value where the key is not found; `set` is an update with one Txn.Set, without a store
-- where it fails; `scan` is what an iterator meets from Seek(prefix) on while ValidForPrefix(prefix) holds.
pub record Store (Db : Type 0) : Type 0 where
  pub get : Text → Db → Option Text
  pub set : Text → Text → Db → Option Db
  pub scan : Text → Db → List (Text × Text)

-- The errors that the repository returns.
pub data Failure : Type 0 where
  not_found write_failed bad_json bad_id bad_hex bad_number : Failure

pub record IsStore (Db : Type 0) (store : Store Db) : Type 0 where
  pub get-set :
      (k v : Text) (db after : Db) (j : Text)
      → store.set k v db ≡ some after
      → store.get j after ≡ (if eqb k j then some v else store.get j db)
  pub lookup-scan :
      (prefix : Text) (db : Db) (k : Text)
      → lookup k (store.scan prefix db) ≡ (if has_prefix k prefix then store.get k db else none)
  pub scan-IsUnique : (prefix : Text) (db : Db) → IsUnique (store.scan prefix db)

-- Every write succeeds.
abbrev pub IsReliable : (Db : Type 0) → Store Db → Type 0
IsReliable Db store = (k v : Text) (db : Db) → (after : Db) × (store.set k v db ≡ some after)
