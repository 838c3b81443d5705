-- ===== src/Go/Slices.antt =====
-- `slices.Sort`, which on a total order has one possible result; and lists in increasing order.
use stellar_extract.Prelude.{
  ◌≡◌, refl, Bool, true, false, ◌||◌, List, [], ◌∷◌, arith, if◌then◌else◌, Ordered, ◌==◌, less, All,
  All-map, path→eq, Bool-cases, inl, inr, length, suc,
}

module _ {K : Type 0} ⦃o : Ordered K⦄ where
  abbrev pub insert : K → List K → List K
  insert x [] = x ∷ []
  insert x (y ∷ ys) = if less y x then y ∷ insert x ys else x ∷ y ∷ ys

  unfoldable pub sort : List K → List K
  sort [] = []
  sort (x ∷ xs) = insert x (sort xs)

  abbrev pub contains : K → List K → Bool
  contains k [] = false
  contains k (x ∷ xs) = (x == k) || contains k xs

  -- Each element is less than all that follow it.
  abbrev pub IsIncreasing : List K → Type 0
  IsIncreasing [] = Unit
  IsIncreasing (x ∷ xs) = All (λ y. less x y ≡ true) xs × IsIncreasing xs

  abbrev pub IsDistinct : List K → Type 0
  IsDistinct [] = Unit
  IsDistinct (x ∷ xs) = (contains x xs ≡ false) × IsDistinct xs

  pub contains-insert :
      (k x : K) (l : List K) → contains k (insert x l) ≡ ((x == k) || contains k l)
  contains-insert k x [] = refl
  contains-insert k x (y ∷ ys) = ground (arith, contains-insert k x ys)

  pub contains-sort : (k : K) (l : List K) → contains k (sort l) ≡ contains k l
  unfolding sort
  contains-sort k [] = refl
  contains-sort k (x ∷ xs) = ground (arith, contains-insert k x (sort xs), contains-sort k xs)

  pub length-insert : (x : K) (l : List K) → length (insert x l) ≡ suc (length l)
  length-insert x [] = refl
  length-insert x (y ∷ ys) = ground (arith, length-insert x ys)

  pub length-sort : (l : List K) → length (sort l) ≡ length l
  unfolding sort
  length-sort [] = refl
  length-sort (x ∷ xs) = ground (arith, length-insert x (sort xs), length-sort xs)

  insert-All : (P : K → Type 0) (x : K) (l : List K) → P x → All P l → All P (insert x l)
  insert-All P x [] p h = (p, tt)
  insert-All P x (y ∷ ys) p (q, h) = ground (arith, insert-All P x ys p h)

  pub insert-IsIncreasing :
      (x : K) (l : List K) → contains x l ≡ false → IsIncreasing l → IsIncreasing (insert x l)
  insert-IsIncreasing x [] n h = (tt, tt)
  insert-IsIncreasing x (y ∷ ys) n (above, h) = elim (Bool-cases (less y x)) [
    | inl below ↦ rw below (
      insert-All (λ z. less y z ≡ true) x ys below above,
      insert-IsIncreasing x ys (ground arith) h,
    )
    | inr not_below ↦
        let x_lt_y : less x y ≡ true = ground (arith, o.lt_total x y, path→eq y x) in
        rw not_below (
          (
            x_lt_y,
            All-map (λ z. less y z ≡ true) (λ z. less x z ≡ true) ys (λ z. o.lt_trans x y z x_lt_y)
                above,
          ),
          (above, h),
        )
  ]

  pub sort-IsIncreasing : (l : List K) → IsDistinct l → IsIncreasing (sort l)
  unfolding sort
  sort-IsIncreasing [] h = tt
  sort-IsIncreasing (x ∷ xs) (n, h) =
      insert-IsIncreasing x (sort xs) (rw contains-sort n) (sort-IsIncreasing xs h)
