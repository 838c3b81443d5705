-- ===== src/Soroban/ContractData/Token.antt =====
-- The token metadata of a contract instance.
use stellar_extract.Prelude.{
  arith, ◌≡◌, ◌⊎◌, refl, ap, ◌∙◌, sym, true, false, Bool, Bool-cases, inl, inr, Option, none, some,
  List, [], ◌∷◌, ◌++◌, Text, text_ordered, eq→path, ◌==◌, ◌||◌, if◌then◌else◌, ℕ,
}
use mathlib.Core.Path.{subst}
use stellar_extract.Go.Ints.{ℤ, to_i32}
use stellar_extract.Go.Strings.{codes}
use stellar_extract.Soroban.ContractData.{
  TokenMetadata, no_token, token_item, token_items, metadata_items, token_storage,
  extract_token_metadata,
}
use stellar_extract.Xdr.Values.{
  ScVal, ScMap, no_entries, and_entry, scv_u32, scv_string, scv_symbol, scv_map,
}

-- The items of a map whose keys are symbols.
abbrev pub named : ScMap → List (Text × ScVal)
named no_entries = []
named (and_entry (scv_symbol (some key)) v items) = (key, v) ∷ named items
named (and_entry _ v items) = named items

-- The named items of the maps that the storage has under METADATA, in order.
abbrev pub metadata_in : ScMap → List (Text × ScVal)
metadata_in no_entries = []
metadata_in (and_entry (scv_symbol (some sym)) (scv_map items) entries) =
    (if sym == codes "METADATA" then named items else []) ++ metadata_in entries
metadata_in (and_entry _ v entries) = metadata_in entries

abbrev pub text_in : ScVal → Option Text
text_in (scv_string (some s)) = some s
text_in _ = none

abbrev pub number_in : ScVal → Option ℤ
number_in (scv_u32 (some n)) = some (to_i32 n)
number_in _ = none

abbrev or_older : {A : Type 0} → Option A → Option A → Option A
or_older none older = older
or_older (some x) older = some x

-- The value of the last item that has one, of the items whose name passes the test.
abbrev pub last_value :
    {A : Type 0} → (Text → Bool) → (ScVal → Option A) → List (Text × ScVal) → Option A
last_value test value [] = none
last_value test value ((key, v) ∷ items) =
    or_older (last_value test value items) (if test key then value v else none)

abbrev pub is_decimals : Text → Bool
is_decimals key = key == codes "decimal" || key == codes "decimals"

-- The metadata of a storage: of each field the last item that sets it.
pub record HasMetadata (items : List (Text × ScVal)) (older m : TokenMetadata) : Type 0 where
  pub name :
      m.token_name ≡ or_older (last_value (λ k. k == codes "name") text_in items) older.token_name
  pub symbol :
      m.token_symbol
      ≡ or_older (last_value (λ k. k == codes "symbol") text_in items) older.token_symbol
  pub decimals :
      m.token_decimals ≡ or_older (last_value is_decimals number_in items) older.token_decimals

abbrev apply : List (Text × ScVal) → TokenMetadata → TokenMetadata
apply [] m = m
apply ((key, v) ∷ items) m = apply items (token_item key v m)

not_both : (key : Text) → (key == codes "name") ≡ true → (key == codes "symbol") ≡ false
not_both key h = ap (λ k. k == codes "symbol") (eq→path key (codes "name") h)

-- A value is a text, a number, or nothing that is read.
abbrev Read : Text → ScVal → TokenMetadata → Type 0
Read key v m =
    ((s : Text) × (v ≡ scv_string (some s)))
    ⊎ (((n : ℕ) × (v ≡ scv_u32 (some n)))
        ⊎ ((text_in v ≡ none) × (number_in v ≡ none) × (token_item key v m ≡ m)))

reads : (key : Text) (v : ScVal) (m : TokenMetadata) → Read key v m
unfolding token_item
reads key v m = ground arith

if_same : {A : Type 0} (b : Bool) (x : A) → (if b then x else x) ≡ x
if_same true x = refl
if_same false x = refl

of_text :
    (key s : Text) (m : TokenMetadata)
    → HasMetadata ((key, scv_string (some s)) ∷ []) m (token_item key (scv_string (some s)) m)
unfolding token_item
of_text key s m = elim (Bool-cases (key == codes "name")) [
  | inl same ↦ record {
    name = rw same refl;
    symbol = rw (same, not_both key same) refl;
    decimals = rw (same, if_same {A = Option ℤ} (is_decimals key) none) refl;
  }
  | inr other ↦ elim (Bool-cases (key == codes "symbol")) [
    | inl same ↦ record {
      name = rw (other, same) refl;
      symbol = rw (other, same) refl;
      decimals = rw (other, same, if_same {A = Option ℤ} (is_decimals key) none) refl;
    }
    | inr neither ↦ record {
      name = rw (other, neither) refl;
      symbol = rw (other, neither) refl;
      decimals = rw (other, neither, if_same {A = Option ℤ} (is_decimals key) none) refl;
    }
  ]
]

of_number :
    (key : Text) (n : ℕ) (m : TokenMetadata)
    → HasMetadata ((key, scv_u32 (some n)) ∷ []) m (token_item key (scv_u32 (some n)) m)
unfolding token_item
of_number key n m = elim (Bool-cases (is_decimals key)) [
  | inl same ↦ record {
    name = rw (same, if_same {A = Option Text} (key == codes "name") none) refl;
    symbol = rw (same, if_same {A = Option Text} (key == codes "symbol") none) refl;
    decimals = rw same refl;
  }
  | inr other ↦ record {
    name = rw (other, if_same {A = Option Text} (key == codes "name") none) refl;
    symbol = rw (other, if_same {A = Option Text} (key == codes "symbol") none) refl;
    decimals = rw other refl;
  }
]

token_item-HasMetadata :
    (key : Text) (v : ScVal) (m : TokenMetadata)
    → HasMetadata ((key, v) ∷ []) m (token_item key v m)
token_item-HasMetadata key v m = elim (reads key v m) [
  | inl (s, e) ↦
      subst (λ v. HasMetadata ((key, v) ∷ []) m (token_item key v m)) (sym e) (of_text key s m)
  | inr (inl (n, e)) ↦
      subst (λ v. HasMetadata ((key, v) ∷ []) m (token_item key v m)) (sym e) (of_number key n m)
  | inr (inr (no_text, no_number, same)) ↦ rw same (record {
    name = rw (no_text, if_same {A = Option Text} (key == codes "name") none) refl;
    symbol = rw (no_text, if_same {A = Option Text} (key == codes "symbol") none) refl;
    decimals = rw (no_number, if_same {A = Option ℤ} (is_decimals key) none) refl;
  })
]

or_older_assoc :
    {A : Type 0} (x y z w r : Option A)
    → r ≡ or_older x w
    → w ≡ or_older y z
    → r ≡ or_older (or_older x y) z
or_older_assoc none y z w r e f = e ∙ f
or_older_assoc (some x) y z w r e f = e

apply-HasMetadata :
    (items : List (Text × ScVal)) (m : TokenMetadata) → HasMetadata items m (apply items m)
apply-HasMetadata [] m = record { name = refl; symbol = refl; decimals = refl }
apply-HasMetadata ((key, v) ∷ items) m =
    let first = token_item-HasMetadata key v m in
    let later = apply-HasMetadata items (token_item key v m) in
    record {
      name = or_older_assoc _ _ _ _ _ later.name first.name;
      symbol = or_older_assoc _ _ _ _ _ later.symbol first.symbol;
      decimals = or_older_assoc _ _ _ _ _ later.decimals first.decimals;
    }

apply-append :
    (xs ys : List (Text × ScVal)) (m : TokenMetadata) → apply (xs ++ ys) m ≡ apply ys (apply xs m)
apply-append [] ys m = refl
apply-append ((key, v) ∷ xs) ys m = apply-append xs ys (token_item key v m)

-- The key of an item is a symbol, or the item is not read.
item_cases :
    (k v : ScVal) (items : ScMap) (m : TokenMetadata)
    → ((key : Text) × (k ≡ scv_symbol (some key)))
      ⊎ ((token_items (and_entry k v items) m ≡ token_items items m)
          × (named (and_entry k v items) ≡ named items))
unfolding token_items
item_cases k v items m = ground arith

token_items-apply :
    (items : ScMap) (m : TokenMetadata) → token_items items m ≡ apply (named items) m
unfolding token_items
token_items-apply no_entries m = refl
token_items-apply (and_entry k v items) m = elim (item_cases k v items m) [
  | inl (key, e) ↦
      subst (λ k. token_items (and_entry k v items) m ≡ apply (named (and_entry k v items)) m)
        (sym e) (token_items-apply items (token_item key v m))
  | inr (skipped, unnamed) ↦
      skipped ∙ token_items-apply items m ∙ ap (λ xs. apply xs m) (sym unnamed)
]

entry_cases :
    (k v : ScVal) (rest : ScMap)
    → ((sym : Text) × (items : ScMap) × (k ≡ scv_symbol (some sym)) × (v ≡ scv_map items))
      ⊎ ((metadata_items k v ≡ no_entries) × (metadata_in (and_entry k v rest) ≡ metadata_in rest))
unfolding metadata_items
entry_cases k v rest = ground arith

of_map :
    (b : Bool) (items : ScMap) (m : TokenMetadata)
    → token_items (if b then items else no_entries) m ≡ apply (if b then named items else []) m
unfolding token_items
of_map true items m = token_items-apply items m
of_map false items m = refl

token_storage-apply :
    (rest : ScMap) (m : TokenMetadata) → token_storage rest m ≡ apply (metadata_in rest) m
unfolding token_storage token_items metadata_items
token_storage-apply no_entries m = refl
token_storage-apply (and_entry k v rest) m = elim (entry_cases k v rest) [
  | inl (s, items, e, f) ↦
      subst (λ k. token_storage (and_entry k v rest) m ≡ apply (metadata_in (and_entry k v rest)) m)
        (sym e)
        (subst
          (λ v.
            token_storage (and_entry (scv_symbol (some s)) v rest) m
            ≡ apply (metadata_in (and_entry (scv_symbol (some s)) v rest)) m)
          (sym f)
          (token_storage-apply rest
              (token_items (if s == codes "METADATA" then items else no_entries) m)
            ∙ ap (apply (metadata_in rest)) (of_map (s == codes "METADATA") items m)
            ∙ sym (
                apply-append (if s == codes "METADATA" then named items else []) (metadata_in rest)
                  m)))
  | inr (none_left, unnamed) ↦
      ap (λ items. token_storage rest (token_items items m)) none_left
      ∙ token_storage-apply rest m
      ∙ ap (λ xs. apply xs m) (sym unnamed)
]

-- Of each field of the metadata the last item that sets it, of the items that the instance's storage
-- has under METADATA.
pub extract_token_metadata-HasMetadata :
    (storage : ScMap)
    → HasMetadata (metadata_in storage) no_token (extract_token_metadata (some storage))
unfolding extract_token_metadata
extract_token_metadata-HasMetadata storage =
    subst (λ m. HasMetadata (metadata_in storage) no_token m)
      (sym (token_storage-apply storage no_token))
      (apply-HasMetadata (metadata_in storage) no_token)
