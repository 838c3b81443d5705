-- ===== src/Soroban/Creations/First.antt =====
-- The contract that the changes of an operation create.
use stellar_extract.Prelude.{
  false, ℕ, ◌≡◌, ◌⊎◌, inl, inr, refl, arith, true, Option, none, some, List, [], ◌∷◌, Text,
  get_elem?, Option-cases,
}
use mathlib.Core.Option.{none-ne-some}
use stellar_extract.Soroban.RestoredKeys.{persistent, temporary, durability_other}
use stellar_extract.Soroban.Creations.{
  MetaChange, created_data, other_meta_change, CreationMeta, meta_v3, meta_v4, meta_other,
  contract_str_key, or_none, changes_of, created_contract, first_created,
}
use stellar_extract.Xdr.{Result, ok, err, Sdk, version_contract}
use stellar_extract.Xdr.Values.{ScAddress}
use stellar_extract.Xdr.Ledger.{LedgerInput}

-- The meta of a transaction has these changes for the operation at a position: those of Soroban
-- meta of versions 3 and 4.
abbrev pub HasChanges : CreationMeta → ℕ → List MetaChange → Type 0
HasChanges (meta_v3 true ops) i changes = get_elem? ops i ≡ some changes
HasChanges (meta_v4 true ops) i changes = get_elem? ops i ≡ some changes
HasChanges (meta_v3 false ops) i changes = ⊥
HasChanges (meta_v4 false ops) i changes = ⊥
HasChanges (meta_other v) i changes = ⊥

in_ops :
    (o : Option (List MetaChange))
    → ((changes : List MetaChange) × (o ≡ some changes) × (or_none o ≡ changes))
      ⊎ ((or_none o ≡ []) × ((changes : List MetaChange) → ¬ (o ≡ some changes)))
in_ops none = inr (refl, none-ne-some)
in_ops (some changes) = inl (changes, refl, refl)

pub has_changes :
    (meta : CreationMeta) (i : ℕ)
    → ((changes : List MetaChange) × HasChanges meta i changes × (changes_of meta i ≡ changes))
      ⊎ ((changes_of meta i ≡ []) × ((changes : List MetaChange) → ¬ HasChanges meta i changes))
has_changes (meta_v3 true ops) i = in_ops (get_elem? ops i)
has_changes (meta_v4 true ops) i = in_ops (get_elem? ops i)
has_changes (meta_v3 false ops) i = inr (refl, λ changes h. h)
has_changes (meta_v4 false ops) i = inr (refl, λ changes h. h)
has_changes (meta_other v) i = inr (refl, λ changes h. h)

pub HasChanges_unique :
    (meta : CreationMeta) (i : ℕ) (changes : List MetaChange)
    → HasChanges meta i changes
    → changes_of meta i ≡ changes
HasChanges_unique (meta_v3 true ops) i changes h = rw h refl
HasChanges_unique (meta_v4 true ops) i changes h = rw h refl
HasChanges_unique (meta_v3 false ops) i changes h = absurd h
HasChanges_unique (meta_v4 false ops) i changes h = absurd h
HasChanges_unique (meta_other v) i changes h = absurd h

module _ (sdk : Sdk) where
  -- A change that creates persistent data of a contract, whose id can be encoded, creates it.
  abbrev pub Creates : MetaChange → Text → Type 0
  Creates (created_data contract persistent) id =
      (c : Text) × (sdk.get_contract_id contract ≡ some c)
      × (sdk.strkey_encode version_contract c ≡ ok id)
  Creates (created_data contract temporary) id = ⊥
  Creates (created_data contract (durability_other d)) id = ⊥
  Creates other_meta_change id = ⊥

  -- The contract of the first change that creates one.
  abbrev pub IsFirst : List MetaChange → Text → Type 0
  IsFirst [] id = ⊥
  IsFirst (change ∷ changes) id =
      Creates change id ⊎ (((other : Text) → ¬ Creates change other) × IsFirst changes id)

  module _ (address_of : Text → Text) (executable_type_string : ℕ → Text)
      (input : LedgerInput) where
    created_contract-Creates :
        (change : MetaChange)
        → ((id : Text) × (created_contract sdk address_of executable_type_string input change
              ≡ some id)
            × Creates change id)
          ⊎ ((created_contract sdk address_of executable_type_string input change ≡ none)
              × ((id : Text) → ¬ Creates change id))
    unfolding created_contract
    created_contract-Creates (created_data contract persistent) =
        elim (Option-cases (sdk.get_contract_id contract)) [
          | inl missing ↦ inr (rw missing refl, λ id h. ground (arith, missing, h.1))
          | inr (c, found) ↦ of_id contract c found (sdk.strkey_encode version_contract c) refl
        ]
      where
        of_id :
            (contract : ScAddress) (c : Text)
            → sdk.get_contract_id contract ≡ some c
            → (r : Result Text) → sdk.strkey_encode version_contract c ≡ r
            → ((id : Text) × (created_contract sdk address_of executable_type_string input
                    (created_data contract persistent)
                  ≡ some id)
                × Creates (created_data contract persistent) id)
              ⊎ ((created_contract sdk address_of executable_type_string input
                      (created_data contract persistent)
                    ≡ none)
                  × ((id : Text) → ¬ Creates (created_data contract persistent) id))
        of_id contract c found (ok id) e =
            inl (id, rw (found, e, contract_str_key) refl, (c, found, e))
        of_id contract c found (err e') e =
            inr (rw (found, e, contract_str_key) refl, λ id h. ground (arith, found, e, h.1, h.2))
    created_contract-Creates (created_data contract temporary) = inr (refl, λ id h. h)
    created_contract-Creates (created_data contract (durability_other d)) = inr (refl, λ id h. h)
    created_contract-Creates other_meta_change = inr (refl, λ id h. h)

    pub first_created-IsFirst :
        (changes : List MetaChange)
        → ((id : Text) × (first_created sdk address_of executable_type_string input changes
              ≡ some id)
            × IsFirst changes id)
          ⊎ ((first_created sdk address_of executable_type_string input changes ≡ none)
              × ((id : Text) → ¬ IsFirst changes id))
    unfolding first_created
    first_created-IsFirst [] = inr (refl, λ id h. h)
    first_created-IsFirst (change ∷ changes) = elim (created_contract-Creates change) [
      | inl (id, found, creates) ↦ inl (id, rw (found, first_created) refl, inl creates)
      | inr (missing, creates_none) ↦ elim (first_created-IsFirst changes) [
        | inl (id, found, first) ↦
            inl (id, rw (missing, first_created) found, inr (creates_none, first))
        | inr (none_left, never) ↦ inr (
          rw (missing, first_created) none_left,
          λ id h. elim h [
            | inl creates ↦ creates_none id creates
            | inr (_, first) ↦ never id first
          ],
        )
      ]
    ]
