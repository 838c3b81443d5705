-- ===== src/Ordering/Snapshot.antt =====
-- The loop that the snapshot extractors share: each item may give a row, the row is stored in a map
-- under its key, over an older row with that key, and the map's rows come out in key order. A row is
-- stamped with the next reading of the clock.
pub mod Table
use stellar_extract.Prelude.{
  ℕ, ◌+◌, ◌≡◌, refl, Option, none, some, List, [], ◌∷◌, ◌++◌, arith, if◌then◌else◌, Ordered, ◌==◌,
  Option-cases, Bool-cases, inl, inr, All, ◌∙◌,
}
use stellar_extract.Go.Maps.{GoMap, get, put, keys, IsMap, get-put, put-IsMap}
use stellar_extract.Go.Slices.{IsIncreasing, sort}
use stellar_extract.Ordering.{values_at, sorted_map_values}
use stellar_extract.Ordering.Members.{Among}
use mathlib.Core.Path.{subst}
use mathlib.Core.Option.{none-ne-some, some-injective}
use stellar_extract.Ordering.Rows.{
  IsKeyed, find, keys_of, find-sorted_map_values, keys_of-sorted_map_values,
  sorted_set_keys-IsIncreasing,
}

-- The variables of the loop: the map, and how often the clock was read.
pub record Collected (K V : Type 0) : Type 0 where
  pub entries : GoMap K V
  pub readings : ℕ

abbrev pub nothing : {K V : Type 0} → Collected K V
nothing = record { entries = []; readings = 0 }

module _ {K V : Type 0} ⦃o : Ordered K⦄ (key : V → K) where
  -- The last row with a key.
  abbrev pub last : K → List V → Option V
  last k [] = none
  last k (v ∷ vs) = elim (last k vs) [
    | none ↦ if key v == k then some v else none
    | some w ↦ some w
  ]

module _ {K V : Type 0} ⦃o : Ordered K⦄ (key : V → K) where
  abbrev pub store : Option V → Collected K V → Collected K V
  store none s = s
  store (some v) s = record { entries = put (key v) v s.entries; readings = s.readings + 1 }

  -- `row n item` is the row of an item at the n-th reading, or nothing where the loop goes on.
  module _ {A : Type 0} (row : ℕ → A → Option V) where
    unfoldable pub collect : List A → Collected K V → Collected K V
    collect [] s = s
    collect (item ∷ items) s = collect items (store (row s.readings item) s)

    -- The rows that the items give, in their order.
    unfoldable pub rows_of : ℕ → List A → List V
    rows_of n [] = []
    rows_of n (item ∷ items) = elim (row n item) [
      | none ↦ rows_of n items
      | some v ↦ v ∷ rows_of (n + 1) items
    ]

  -- `out` holds the last row of each key that occurs, in increasing order of the keys.
  pub record IsSnapshot (rows out : List V) : Type 0 where
    pub ordered : IsIncreasing (keys_of key out)
    pub latest : (k : K) → find key k out ≡ last key k rows

  abbrev put_all : List V → GoMap K V → GoMap K V
  put_all [] m = m
  put_all (v ∷ vs) m = put_all vs (put (key v) v m)

  abbrev or_older : Option V → Option V → Option V
  or_older none older = older
  or_older (some v) older = some v

  get-put_all :
      (vs : List V) (m : GoMap K V) (k : K)
      → get k (put_all vs m) ≡ or_older (last key k vs) (get k m)
  get-put_all [] m k = refl
  get-put_all (v ∷ vs) m k =
      ground (arith, get-put_all vs (put (key v) v m) k, get-put (key v) k v m)

  put_all-IsMap : (vs : List V) (m : GoMap K V) → IsMap m → IsMap (put_all vs m)
  put_all-IsMap [] m h = h
  put_all-IsMap (v ∷ vs) m h = put_all-IsMap vs (put (key v) v m) (put-IsMap (key v) v m h)

  put-IsKeyed : (v : V) (m : GoMap K V) → IsKeyed key m → IsKeyed key (put (key v) v m)
  put-IsKeyed v [] h = (refl, tt)
  put-IsKeyed v ((j, w) ∷ m) (e, h) = ground (arith, put-IsKeyed v m h)

  put_all-IsKeyed : (vs : List V) (m : GoMap K V) → IsKeyed key m → IsKeyed key (put_all vs m)
  put_all-IsKeyed [] m h = h
  put_all-IsKeyed (v ∷ vs) m h = put_all-IsKeyed vs (put (key v) v m) (put-IsKeyed v m h)

  put_all-IsSnapshot : (vs : List V) → IsSnapshot vs (sorted_map_values (put_all vs []))
  put_all-IsSnapshot vs =
      let m : GoMap K V = put_all vs [] in
      let keyed : IsKeyed key m = put_all-IsKeyed vs [] tt in
      record {
        ordered =
            rw (keys_of-sorted_map_values key m keyed)
              (sorted_set_keys-IsIncreasing m (put_all-IsMap vs [] tt));
        latest = λ k. find-sorted_map_values key m keyed k ∙ get-put_all vs [] k ∙ ground arith;
      }

  module _ {A : Type 0} (row : ℕ → A → Option V) where
    collect-put_all :
        (items : List A) (s : Collected K V)
        → (collect row items s).entries ≡ put_all (rows_of row s.readings items) s.entries
    unfolding collect rows_of
    collect-put_all [] s = refl
    collect-put_all (item ∷ items) s = elim (Option-cases (row s.readings item)) [
      | inl skipped ↦ rw (skipped, rows_of, collect) (collect-put_all items s)
      | inr (v, made) ↦ rw (made, rows_of, collect) (collect-put_all items (store (some v) s))
    ]

    pub collect-append :
        (xs ys : List A) (s : Collected K V)
        → collect row (xs ++ ys) s ≡ collect row ys (collect row xs s)
    unfolding collect
    collect-append [] ys s = refl
    collect-append (x ∷ xs) ys s = collect-append xs ys (store (row s.readings x) s)

    -- The rows that come out are a snapshot of the rows that the items give.
    pub collect-IsSnapshot :
        (items : List A)
        → IsSnapshot (rows_of row 0 items) (sorted_map_values (collect row items nothing).entries)
    collect-IsSnapshot items =
        rw (collect-put_all items nothing) (put_all-IsSnapshot (rows_of row 0 items))

  values_at-All :
      (P : V → Type 0) (m : GoMap K V) → All (λ e. P e.1) m → (ks : List K) → All P (values_at m ks)
  values_at-All P m h [] = tt
  values_at-All P m h (k ∷ ks) = elim (Option-cases (get k m)) [
    | inl missing ↦ rw (missing, values_at) (values_at-All P m h ks)
    | inr (v, found) ↦ rw (found, values_at) (get-All P m h k v found, values_at-All P m h ks)
  ]
    where
      get-All :
          (P : V → Type 0) (m : GoMap K V)
          → All (λ e. P e.1) m
          → (k : K) (v : V) → get k m ≡ some v
          → P v
      get-All P [] h k v e = ground arith
      get-All P ((j, w) ∷ m) (p, h) k v e = elim (Bool-cases (j == k)) [
        | inl same ↦ subst P (ground arith) p
        | inr other ↦ get-All P m h k v (ground arith)
      ]

  put-All :
      (P : V → Type 0) (k : K) (v : V) (m : GoMap K V)
      → P v
      → All (λ e. P e.1) m
      → All (λ e. P e.1) (put k v m)
  put-All P k v [] p h = (p, tt)
  put-All P k v ((j, w) ∷ m) p (q, h) = elim (Bool-cases (j == k)) [
    | inl same ↦ rw (same, put) (p, h)
    | inr other ↦ rw (other, put) (q, put-All P k v m p h)
  ]

  module _ {A : Type 0} (row : ℕ → A → Option V) (P : V → Type 0) where
    store-All :
        (o : Option V) (s : Collected K V)
        → ((v : V) → o ≡ some v → P v)
        → All (λ e. P e.1) s.entries
        → All (λ e. P e.1) (store o s).entries
    store-All none s f h = h
    store-All (some v) s f h = put-All P (key v) v s.entries (f v refl) h

    collect_entries-All :
        (items : List A) (s : Collected K V)
        → ((n : ℕ) (item : A) (v : V) → Among item items → row n item ≡ some v → P v)
        → All (λ e. P e.1) s.entries
        → All (λ e. P e.1) (collect row items s).entries
    unfolding collect
    collect_entries-All [] s f h = h
    collect_entries-All (item ∷ items) s f h =
        collect_entries-All items (store (row s.readings item) s) (λ n i v m e. f n i v (inr m) e)
          (store-All (row s.readings item) s (λ v. f s.readings item v (inl refl)) h)

    -- What holds of the row of each item holds of the rows that come out.
    pub collect-All :
        (items : List A)
        → ((n : ℕ) (item : A) (v : V) → Among item items → row n item ≡ some v → P v)
        → All P (sorted_map_values (collect row items nothing).entries)
    unfolding sorted_map_values
    collect-All items f =
        let m = (collect row items nothing).entries in
        values_at-All P m (collect_entries-All items nothing f tt) (sort (keys m))

  abbrev pub OfSome : (V → Type 0) → Option V → Type 0
  OfSome P none = Unit
  OfSome P (some v) = P v

  OfSome-some : (P : V → Type 0) (o : Option V) (v : V) → OfSome P o → o ≡ some v → P v
  OfSome-some P none v h e = absurd (none-ne-some v e)
  OfSome-some P (some w) v h e = subst P (some-injective w v e) h

  -- The rows that come out are a snapshot of the rows that the items give, and each of them is a row
  -- of one of the items, by whatever relation the rows of single items satisfy.
  abbrev pub IsSnapshotOf :
      {A : Type 0} → (ℕ → A → Option V) → (A → V → Type 0) → List A → List V → Type 0
  IsSnapshotOf row RowOf items out =
      IsSnapshot (rows_of row 0 items) out
      × All (λ v. (item : _) × Among item items × RowOf item v) out

  pub collect_lem :
      {A : Type 0} (row : ℕ → A → Option V) (RowOf : A → V → Type 0)
      → ((n : ℕ) (item : A) → OfSome (RowOf item) (row n item))
      → (items : List A)
      → IsSnapshotOf row RowOf items (sorted_map_values (collect row items nothing).entries)
  collect_lem row RowOf f items = (
    collect-IsSnapshot row items,
    collect-All row _ items
        (λ n item v m e. (item, m, OfSome-some (RowOf item) (row n item) v (f n item) e)),
  )
