-- ===== src/Ordering/Canonical.antt =====
-- The output does not depend on the order in which the map is ranged over.
use stellar_extract.Prelude.{
  ◌≡◌, refl, true, false, List, [], ◌∷◌, arith, sym, ◌∙◌, Ordered, less, All, eq_refl, eq→path,
  is_some, Bool-cases, inl, inr, ap,
}
use stellar_extract.Go.Maps.{GoMap, get, keys, IsMap}
use stellar_extract.Go.Slices.{sort, contains, IsIncreasing}
use stellar_extract.Ordering.{values_at, sorted_map_values, sorted_set_keys}
use stellar_extract.Ordering.Rows.{sorted_set_keys-IsIncreasing, contains-sorted_set_keys}

module _ {K : Type 0} ⦃o : Ordered K⦄ where
  contains_below :
      (k x : K) (l : List K) → less k x ≡ true → All (λ y. less x y ≡ true) l → contains k l ≡ false
  contains_below k x [] b h = refl
  contains_below k x (y ∷ ys) b (x_lt_y, h) =
      ground
        (arith, contains_below k x ys b h, o.lt_trans k x y b x_lt_y, eq→path y k, o.lt_irrefl k)

  not_in_above : (x : K) (l : List K) → All (λ y. less x y ≡ true) l → contains x l ≡ false
  not_in_above x [] h = refl
  not_in_above x (y ∷ ys) (x_lt_y, h) = ground (arith, not_in_above x ys h)

  -- Increasing lists with the same elements are equal.
  increasing_ext :
      (l l' : List K)
      → IsIncreasing l
      → IsIncreasing l'
      → ((k : K) → contains k l ≡ contains k l')
      → l ≡ l'
  increasing_ext [] [] h h' same = refl
  increasing_ext [] (y ∷ ys) h h' same = ground (arith, same y, eq_refl y)
  increasing_ext (x ∷ xs) [] h h' same = ground (arith, same x, eq_refl x)
  increasing_ext (x ∷ xs) (y ∷ ys) (above, h) (above', h') same =
      let heads : x ≡ y =
        o.lt_total x y
          (elim (Bool-cases (less x y)) [
            | inl lt ↦ ground (arith, same x, eq_refl x, contains_below x y ys lt above')
            | inr ge ↦ ge
          ])
          (elim (Bool-cases (less y x)) [
            | inl lt ↦ ground (arith, same y, eq_refl y, contains_below y x xs lt above)
            | inr ge ↦ ge
          ]) in
      let tails : xs ≡ ys = increasing_ext xs ys h h' λ k.
        ground
          (arith, same k, not_in_above x xs above, not_in_above y ys above', eq→path x k, heads) in
      ground arith

  module _ {V : Type 0} where
    -- Two ranges over the same set give the same sorted keys.
    pub sorted_set_keys-canonical :
        (m m' : GoMap K V)
        → IsMap m
        → IsMap m'
        → ((k : K) → is_some (get k m) ≡ is_some (get k m'))
        → sorted_set_keys m ≡ sorted_set_keys m'
    sorted_set_keys-canonical m m' h h' same =
        increasing_ext (sorted_set_keys m) (sorted_set_keys m') (sorted_set_keys-IsIncreasing m h)
          (sorted_set_keys-IsIncreasing m' h')
          λ k. contains-sorted_set_keys k m ∙ same k ∙ sym (contains-sorted_set_keys k m')

    values_at_same :
        (m m' : GoMap K V)
        → ((k : K) → get k m ≡ get k m')
        → (ks : List K) → values_at m ks ≡ values_at m' ks
    values_at_same m m' same [] = refl
    values_at_same m m' same (k ∷ ks) = ground (arith, same k, values_at_same m m' same ks)

    -- Two lists of entries that stand for the same map, in whatever two orders a range visits it,
    -- give the same rows in the same order.
    pub sorted_map_values-canonical :
        (m m' : GoMap K V)
        → IsMap m
        → IsMap m'
        → ((k : K) → get k m ≡ get k m')
        → sorted_map_values m ≡ sorted_map_values m'
    unfolding sorted_map_values sorted_set_keys
    sorted_map_values-canonical m m' h h' same =
        values_at_same m m' same (sort (keys m))
        ∙ ap (values_at m') (sorted_set_keys-canonical m m' h h' (λ k. ap is_some (same k)))
