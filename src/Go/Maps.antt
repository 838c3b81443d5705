-- ===== src/Go/Maps.antt =====
-- Go's built-in maps, as lists of entries. The order of the list is the order in which one `range`
-- over the map happens to visit it, so a statement about every list covers every such order.
use stellar_extract.Prelude.{
  ◌≡◌, refl, true, Option, none, some, List, [], ◌∷◌, arith, ap, if◌then◌else◌, Ordered, ◌==◌,
  eq→path, path→eq,
}

abbrev pub GoMap : Type 0 → Type 0 → Type 0
GoMap K V = List (K × V)

module _ {K V : Type 0} ⦃o : Ordered K⦄ where
  -- `v, ok := m[k]`
  abbrev pub get : K → GoMap K V → Option V
  get k [] = none
  get k ((j, v) ∷ m) = if j == k then some v else get k m

  -- `m[k] = v`
  abbrev pub put : K → V → GoMap K V → GoMap K V
  put k v [] = (k, v) ∷ []
  put k v ((j, w) ∷ m) = if j == k then (k, v) ∷ m else (j, w) ∷ put k v m

  abbrev pub keys : GoMap K V → List K
  keys [] = []
  keys ((k, v) ∷ m) = k ∷ keys m

  -- No key occurs twice: what makes a list of entries a map.
  abbrev pub IsMap : GoMap K V → Type 0
  IsMap [] = Unit
  IsMap ((k, v) ∷ m) = (get k m ≡ none) × IsMap m

  pub get-eq_key : (j k : K) (m : GoMap K V) → (j == k) ≡ true → get j m ≡ get k m
  get-eq_key j k m h = ap (λ x. get x m) (eq→path j k h)

  pub get-put :
      (k j : K) (v : V) (m : GoMap K V) → get j (put k v m) ≡ (if k == j then some v else get j m)
  get-put k j v [] = refl
  get-put k j v ((i, w) ∷ m) = ground (
    arith,
    get-put k j v m,
    eq→path i k,
    eq→path i j,
    eq→path k j,
    path→eq i k,
    path→eq i j,
    path→eq k j,
  )

  pub put-IsMap : (k : K) (v : V) (m : GoMap K V) → IsMap m → IsMap (put k v m)
  put-IsMap k v [] h = (refl, tt)
  put-IsMap k v ((i, w) ∷ m) h = ground (
    arith,
    put-IsMap k v m h.1,
    get-put k i v m,
    eq→path i k,
    eq→path k i,
    path→eq i k,
    path→eq k i,
  )
