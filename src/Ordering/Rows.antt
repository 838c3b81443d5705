-- ===== src/Ordering/Rows.antt =====
-- The rows of a map come out in increasing order of their keys, and none is lost.
use stellar_extract.Prelude.{
  ◌≡◌, refl, true, Option, none, some, List, [], ◌∷◌, arith, if◌then◌else◌, Ordered, ◌==◌, All,
  eq_refl, eq→path, is_some, Option-cases, inl, inr,
}
use stellar_extract.Go.Maps.{GoMap, get, keys, IsMap, get-eq_key}
use stellar_extract.Go.Slices.{
  sort, contains, IsIncreasing, IsDistinct, contains-sort, sort-IsIncreasing,
}
use stellar_extract.Ordering.{values_at, sorted_map_values, sorted_set_keys}

module _ {K V : Type 0} ⦃o : Ordered K⦄ where
  pub contains-keys : (k : K) (m : GoMap K V) → contains k (keys m) ≡ is_some (get k m)
  contains-keys k [] = refl
  contains-keys k ((j, v) ∷ m) = ground (arith, contains-keys k m)

  pub keys-IsDistinct : (m : GoMap K V) → IsMap m → IsDistinct (keys m)
  keys-IsDistinct [] h = tt
  keys-IsDistinct ((k, v) ∷ m) (fresh, h) = (ground (arith, contains-keys k m), keys-IsDistinct m h)

  pub sorted_set_keys-IsIncreasing : (m : GoMap K V) → IsMap m → IsIncreasing (sorted_set_keys m)
  unfolding sorted_set_keys
  sorted_set_keys-IsIncreasing m h = sort-IsIncreasing (keys m) (keys-IsDistinct m h)

  pub contains-sorted_set_keys :
      (k : K) (m : GoMap K V) → contains k (sorted_set_keys m) ≡ is_some (get k m)
  unfolding sorted_set_keys
  contains-sorted_set_keys k m = ground (arith, contains-sort k (keys m), contains-keys k m)

  module _ (key : V → K) where
    -- Every row stands in the map under its own key.
    abbrev pub IsKeyed : GoMap K V → Type 0
    IsKeyed = All (λ e. key e.1 ≡ e.0)

    -- The row with a key, in a list of rows.
    abbrev pub find : K → List V → Option V
    find k [] = none
    find k (v ∷ vs) = if key v == k then some v else find k vs

    abbrev pub keys_of : List V → List K
    keys_of [] = []
    keys_of (v ∷ vs) = key v ∷ keys_of vs

    get-IsKeyed : (m : GoMap K V) → IsKeyed m → (k : K) (v : V) → get k m ≡ some v → key v ≡ k
    get-IsKeyed [] h k v e = ground arith
    get-IsKeyed ((j, w) ∷ m) (same, h) k v e = ground (arith, get-IsKeyed m h k v, eq→path j k)

    -- Where every key has its row, the rows carry the keys that were asked for, in that order.
    keys_of-values_at :
        (m : GoMap K V)
        → IsKeyed m
        → (ks : List K) → ((k : K) → contains k ks ≡ true → is_some (get k m) ≡ true)
        → keys_of (values_at m ks) ≡ ks
    keys_of-values_at m keyed [] held = refl
    keys_of-values_at m keyed (k ∷ ks) held = elim (Option-cases (get k m)) [
      | inl missing ↦ ground (arith, held k (ground (arith, eq_refl k)))
      | inr (v, found) ↦
          rw (found, values_at)
            (ground (
              arith,
              get-IsKeyed m keyed k v found,
              keys_of-values_at m keyed ks (λ j h. held j (ground arith)),
            ))
    ]

    pub keys_of-sorted_map_values :
        (m : GoMap K V) → IsKeyed m → keys_of (sorted_map_values m) ≡ sorted_set_keys m
    unfolding sorted_map_values sorted_set_keys
    keys_of-sorted_map_values m keyed =
        keys_of-values_at m keyed (sort (keys m))
          λ k h. ground (arith, contains-sort k (keys m), contains-keys k m)

    find-values_at :
        (m : GoMap K V)
        → IsKeyed m
        → (ks : List K) (k : K)
        → find k (values_at m ks) ≡ (if contains k ks then get k m else none)
    find-values_at m keyed [] k = refl
    find-values_at m keyed (j ∷ ks) k = elim (Option-cases (get j m)) [
      | inl missing ↦
          rw (missing, values_at) (ground (arith, find-values_at m keyed ks k, get-eq_key j k m))
      | inr (v, found) ↦
          rw (found, values_at)
            (ground
              (arith, get-IsKeyed m keyed j v found, find-values_at m keyed ks k, get-eq_key j k m))
    ]

    pub find-sorted_map_values :
        (m : GoMap K V) → IsKeyed m → (k : K) → find k (sorted_map_values m) ≡ get k m
    unfolding sorted_map_values
    find-sorted_map_values m keyed k = ground (
      arith,
      find-values_at m keyed (sort (keys m)) k,
      contains-sort k (keys m),
      contains-keys k m,
    )
