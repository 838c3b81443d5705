-- ===== src/Ordering/Snapshot/Table.antt =====
-- What the rows of the snapshot loop are, said without the loop: by what each item shows.
use stellar_extract.Prelude.{
  ℕ, ◌+◌, ◌≡◌, refl, Option, none, some, List, [], ◌∷◌, if◌then◌else◌, Ordered, ◌==◌, Option-cases,
  Bool-cases, inl, inr, All,
}
use mathlib.Core.Path.{subst}
use stellar_extract.Go.Slices.{IsIncreasing}
use stellar_extract.Ordering.{sorted_map_values}
use stellar_extract.Ordering.Rows.{find, keys_of}
use stellar_extract.Ordering.Snapshot.{nothing, collect, rows_of, last, collect-IsSnapshot}

All-always : {A : Type 0} (P : A → Type 0) → ((x : A) → P x) → (xs : List A) → All P xs
All-always P f [] = tt
All-always P f (x ∷ xs) = (f x, All-always P f xs)

-- What a list of items shows, of those that show something.
abbrev pub shown_in : {A S : Type 0} → (A → Option S) → List A → List S
shown_in shown [] = []
shown_in shown (item ∷ items) = elim (shown item) [
  | none ↦ shown_in shown items
  | some s ↦ s ∷ shown_in shown items
]

module _ {K V : Type 0} ⦃o : Ordered K⦄ (key : V → K) where
  -- `some s` shows what row there is for an item, and `none` that there is none; the row agrees.
  abbrev pub Matches : {S : Type 0} → (S → V → Type 0) → Option S → Option V → Type 0
  Matches RowOf none none = Unit
  Matches RowOf (some s) (some v) = RowOf s v
  Matches RowOf _ _ = ⊥

  -- `out` has one row for each key that some item shows, which is that of the last item that shows
  -- the key, and the rows are in increasing order of their keys. What an item shows, `shown`, and
  -- what the row of that is, `RowOf`, do not mention how the rows are made.
  pub record IsTableOf {A S : Type 0} (shown : A → Option S) (key_of : S → K)
      (RowOf : S → V → Type 0) (items : List A) (out : List V) : Type 0 where
    pub ordered : IsIncreasing (keys_of key out)
    pub latest : (k : K) → Matches RowOf (last key_of k (shown_in shown items)) (find key k out)

  module _ {A S : Type 0} (shown : A → Option S) (key_of : S → K) (RowOf : S → V → Type 0)
      (row : ℕ → A → Option V) where
    -- The row that the loop makes of the item is that of what the item shows, under its key.
    abbrev pub Makes : A → Type 0
    Makes item = (n : ℕ) → Matches (λ s v. RowOf s v × (key v ≡ key_of s)) (shown item) (row n item)

    consed :
        (s : S) (v : V)
        → RowOf s v
        → key v ≡ key_of s
        → (k : K) (ls : Option S) (lv : Option V) → Matches RowOf ls lv
        → Matches RowOf
            (elim ls [ none ↦ if key_of s == k then some s else none | some w ↦ some w ])
            (elim lv [ none ↦ if key v == k then some v else none | some w ↦ some w ])
    consed s v fits same k none none h = elim (Bool-cases (key_of s == k)) [
      | inl equal ↦ rw (same, equal) fits
      | inr other ↦ rw (same, other) tt
    ]
    consed s v fits same k (some t) (some w) h = h
    consed s v fits same k none (some w) h = absurd h
    consed s v fits same k (some t) none h = absurd h

    last_row :
        (n : ℕ) (items : List A)
        → All Makes items
        → (k : K)
        → Matches RowOf
            (last key_of k (shown_in shown items))
            (last key k (rows_of key row n items))
    unfolding rows_of
    last_row n [] made k = tt
    last_row n (item ∷ items) (now, made) k = elim (Option-cases (shown item)) [
      | inl hidden ↦ elim (Option-cases (row n item)) [
        | inl skipped ↦ rw (hidden, skipped, shown_in, rows_of) (last_row n items made k)
        | inr (v, found) ↦ absurd (subst (λ o. o) (at hidden found) (now n))
      ]
      | inr (s, visible) ↦ elim (Option-cases (row n item)) [
        | inl skipped ↦ absurd (subst (λ o. o) (at visible skipped) (now n))
        | inr (v, found) ↦
            let (fits, same) = subst (λ o. o) (at visible found) (now n) in
            rw (visible, found, shown_in, rows_of)
              (consed s v fits same k (last key_of k (shown_in shown items))
                (last key k (rows_of key row (n + 1) items)) (last_row (n + 1) items made k))
      ]
    ]
      where
        at :
            {os : Option S} {ov : Option V}
            → shown item ≡ os
            → row n item ≡ ov
            → Matches (λ s v. RowOf s v × (key v ≡ key_of s)) (shown item) (row n item)
              ≡ Matches (λ s v. RowOf s v × (key v ≡ key_of s)) os ov
        at e f = rw (e, f) refl

    pub collect_made-IsTableOf :
        (items : List A)
        → All Makes items
        → IsTableOf shown key_of RowOf items
            (sorted_map_values (collect key row items nothing).entries)
    collect_made-IsTableOf items made =
        let snapshot = collect-IsSnapshot key row items in
        record {
          ordered = snapshot.ordered;
          latest = λ k. rw (snapshot.latest k) (last_row 0 items made k);
        }

    pub collect-IsTableOf :
        ((n : ℕ) (item : A)
          → Matches (λ s v. RowOf s v × (key v ≡ key_of s)) (shown item) (row n item))
        → (items : List A)
        → IsTableOf shown key_of RowOf items
            (sorted_map_values (collect key row items nothing).entries)
    collect-IsTableOf made items =
        collect_made-IsTableOf items (All-always Makes (λ item n. made n item) items)
