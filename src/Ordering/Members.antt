-- ===== src/Ordering/Members.antt =====
-- A value is among the sorted values of a map exactly if some key has it.
use stellar_extract.Prelude.{
  ◌≡◌, ◌⊎◌, inl, inr, true, some, List, [], ◌∷◌, arith, Ordered, Option-cases, eq→path, ◌∙◌,
  is_some, ap,
}
use stellar_extract.Go.Maps.{GoMap, get, keys}
use stellar_extract.Go.Slices.{sort, contains, contains-sort}
use stellar_extract.Ordering.{values_at, sorted_map_values}
use stellar_extract.Ordering.Rows.{contains-keys}

abbrev pub Among : {V : Type 0} → V → List V → Type 0
Among v [] = ⊥
Among v (x ∷ xs) = (v ≡ x) ⊎ Among v xs

module _ {K V : Type 0} ⦃o : Ordered K⦄ where
  values_at-Among :
      (m : GoMap K V) (ks : List K) (k : K) (v : V)
      → contains k ks ≡ true
      → get k m ≡ some v
      → Among v (values_at m ks)
  values_at-Among m [] k v h e = ground arith
  values_at-Among m (j ∷ ks) k v h e = elim (Option-cases (get j m)) [
    | inl missing ↦
        rw (missing, values_at) (values_at-Among m ks k v (ground (arith, eq→path j k)) e)
    | inr (w, found) ↦ rw (found, values_at) (ground (arith, values_at-Among m ks k v, eq→path j k))
  ]

  pub sorted_map_values-Among :
      (m : GoMap K V) (k : K) (v : V) → get k m ≡ some v → Among v (sorted_map_values m)
  unfolding sorted_map_values
  sorted_map_values-Among m k v e =
      values_at-Among m (sort (keys m)) k v
        (contains-sort k (keys m) ∙ contains-keys k m ∙ ap is_some e) e

  values_at_from :
      (m : GoMap K V) (ks : List K) (v : V)
      → Among v (values_at m ks)
      → (k : K) × (get k m ≡ some v)
  values_at_from m [] v h = elim h [ ]
  values_at_from m (j ∷ ks) v h = elim (Option-cases (get j m)) [
    | inl missing ↦ values_at_from m ks v (rw (missing, values_at) at h)
    | inr (w, found) ↦ first (rw (found, values_at) at h) found (values_at_from m ks v)
  ]
    where
      first :
          {w : V}
          → (v ≡ w) ⊎ Among v (values_at m ks)
          → get j m ≡ some w
          → (Among v (values_at m ks) → (k : K) × (get k m ≡ some v))
          → (k : K) × (get k m ≡ some v)
      first (inl e) found later = (j, cc)
      first (inr h') found later = later h'

  pub sorted_map_values_from :
      (m : GoMap K V) (v : V) → Among v (sorted_map_values m) → (k : K) × (get k m ≡ some v)
  unfolding sorted_map_values
  sorted_map_values_from m v h = values_at_from m (sort (keys m)) v h
