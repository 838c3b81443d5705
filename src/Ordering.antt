-- ===== src/Ordering.antt =====
-- ordering.go: rows and keys leave a Go map in the order of their keys.
pub mod Rows
pub mod Canonical
pub mod Members
pub mod Snapshot
use stellar_extract.Prelude.{Option, none, some, List, [], ◌∷◌, Ordered}
use stellar_extract.Go.Maps.{GoMap, get, keys}
use stellar_extract.Go.Slices.{sort}

module _ {K V : Type 0} ⦃o : Ordered K⦄ where
  -- the loop `for _, k := range keys { out = append(out, *m[k]) }`
  abbrev pub values_at : GoMap K V → List K → List V
  values_at m [] = []
  values_at m (k ∷ ks) = elim (get k m) [ none ↦ values_at m ks | some v ↦ v ∷ values_at m ks ]

  unfoldable pub sorted_map_values : GoMap K V → List V
  sorted_map_values m = values_at m (sort (keys m))

  unfoldable pub sorted_set_keys : GoMap K V → List K
  sorted_set_keys set = sort (keys set)
