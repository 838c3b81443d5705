-- ===== src/Soroban/ContractData/Rows.antt =====
-- The contract data rows of a ledger.
use stellar_extract.Prelude.{
  ℕ, ◌≡◌, ◌⊎◌, inl, inr, refl, arith, Bool, true, false, Option, none, some, List, [], ◌∷◌, ◌++◌,
  Text, text_ordered, ltb, length, if◌then◌else◌,
}
use stellar_extract.Go.Ints.{ℤ, to_i32}
use stellar_extract.Go.Strings.{codes, hex_encode, decimal_int}
use stellar_extract.Ordering.Snapshot.Table.{Matches, IsTableOf, collect-IsTableOf}
use stellar_extract.Soroban.ContractData.{
  ContractDataEntry, DataChange, contract_data_change, no_data_change, SacAsset, sac_native,
  sac_issued, SacColumns, TokenMetadata, DataSdk, ContractDataData, no_token,
  extract_token_metadata, sac_columns, is_nonce, is_instance_key, data_key, amount_of,
  contract_text, encoded_id, data_data, data_with_id, data_entry_row, data_row,
  extract_contract_data,
}
use stellar_extract.Soroban.ContractData.Token.{
  HasMetadata, metadata_in, extract_token_metadata-HasMetadata,
}
use stellar_extract.Xdr.{Result, ok, err, version_contract}
use stellar_extract.Xdr.Ledger.{Entry, LedgerInput}
use stellar_extract.Xdr.Values.{
  ScVal, ScMap, type_of, scv_ledger_key_nonce, scv_ledger_key_contract_instance,
}

-- What a change shows: the number of its kind, whether it removes the entry, the entry after it or
-- the one that it removes, and the text of the entry's contract.
abbrev pub Shown : Type 0
Shown = ℤ × Bool × Entry ContractDataEntry × Text

-- The columns of the asset that the SDK finds in an entry.
abbrev pub HasAsset : Option SacAsset → SacColumns → Type 0
HasAsset none columns =
    (columns.asset_code ≡ none) × (columns.asset_issuer ≡ none) × (columns.asset_type ≡ none)
HasAsset (some sac_native) columns =
    (columns.asset_code ≡ none)
    × (columns.asset_issuer ≡ none)
    × (columns.asset_type ≡ some (codes "native"))
HasAsset (some (sac_issued code issuer)) columns =
    (columns.asset_code ≡ some code)
    × (columns.asset_issuer ≡ some issuer)
    × (columns.asset_type
        ≡ some
            (if ltb 4 (length code) then codes "credit_alphanum12" else codes "credit_alphanum4"))

abbrev HasAmount : Option (Text × ℤ) → Option Text → Type 0
HasAmount none column = column ≡ none
HasAmount (some (holder, amount)) column = column ≡ some (decimal_int amount)

-- Only the entry of a contract's instance with storage has token metadata: of each field the last
-- item that sets it.
abbrev HasToken : ScVal → Option ScMap → TokenMetadata → Type 0
HasToken scv_ledger_key_contract_instance (some storage) token =
    HasMetadata (metadata_in storage) no_token token
HasToken _ _ token = token ≡ no_token

module _ (sdk : DataSdk) where
  -- The text of a contract's id, where the address is a contract's and its id can be encoded.
  abbrev encoded : Result Text → Option Text
  encoded (err e) = none
  encoded (ok bytes) = elim (sdk.values.strkey_encode version_contract bytes) [
    | err e ↦ none
    | ok id ↦ some id
  ]

  abbrev id_text : Option Text → Option Text
  id_text none = none
  id_text (some hash) = encoded (sdk.marshal_hash hash)

  abbrev with_text : ℤ → Bool → Entry ContractDataEntry → Option Text → Option Shown
  with_text t gone entry none = none
  with_text t gone entry (some id) = some (t, gone, entry, id)

  -- A nonce shows nothing.
  abbrev of_entry : ScVal → ℤ → Bool → Entry ContractDataEntry → Option Shown
  of_entry (scv_ledger_key_nonce n) t gone entry = none
  of_entry _ t gone entry =
      with_text t gone entry (id_text (sdk.values.get_contract_id entry.body.contract))

  key_cases :
      (key : ScVal) (t : ℤ) (gone : Bool) (entry : Entry ContractDataEntry)
      → ((is_nonce key ≡ true) × (of_entry key t gone entry ≡ none))
        ⊎ ((is_nonce key ≡ false)
            × (of_entry key t gone entry
                ≡ with_text t gone entry
                    (id_text (sdk.values.get_contract_id entry.body.contract))))
  key_cases key t gone entry = ground arith

  abbrev pub shown : DataChange → Option Shown
  shown (contract_data_change t none none) = none
  shown (contract_data_change t (some pre) none) = of_entry pre.body.key t true pre
  shown (contract_data_change t pre (some post)) = of_entry post.body.key t false post
  shown no_data_change = none

  abbrev pub key_hash : Entry ContractDataEntry → Text
  key_hash entry = elim (sdk.key_bytes entry) [
    | err e ↦ []
    | ok bytes ↦ hex_encode (sdk.sha256 bytes)
  ]

  -- The contract, the type of the key and the key's hash.
  abbrev pub shown_key : Shown → Text
  shown_key (t, gone, entry, id) =
      id ++ (b'_' ∷ (sdk.values.type_string (type_of entry.body.key) ++ (b'_' ∷ key_hash entry)))

  module _ (input : LedgerInput) where
    pub record IsDataRow (t : ℤ) (gone : Bool) (entry : Entry ContractDataEntry) (id : Text)
        (row : ContractDataData) : Type 0 where
      pub of_contract : row.contract_id ≡ id
      pub lasting : row.contract_durability ≡ sdk.durability_string entry.body.durability
      pub of_asset : HasAsset (sdk.asset_of entry) row.asset
      pub amount : HasAmount (sdk.balance_of entry) row.balance
      pub token : HasToken entry.body.key entry.body.storage row.token
      pub removed : row.deleted ≡ gone
      pub changed : row.ledger_entry_change ≡ t
      pub modified : row.last_modified_ledger ≡ to_i32 entry.last_modified_ledger_seq
      pub of_ledger : row.ledger_sequence ≡ input.sequence
      pub closed : row.closed_at ≡ input.closed_at
      pub in_range : row.ledger_range ≡ input.ledger_range
      pub of_era : row.era_id ≡ input.era_id

    abbrev pub RowOf : Shown → ContractDataData → Type 0
    RowOf (t, gone, entry, id) row = IsDataRow t gone entry id row

    abbrev MatchesRow : Option Shown → Option ContractDataData → Type 0
    MatchesRow = Matches data_key (λ s v. RowOf s v × (data_key v ≡ shown_key s))

    has_asset : (o : Option SacAsset) → HasAsset o (sac_columns o)
    unfolding sac_columns
    has_asset o = ground arith

    has_token :
        (key : ScVal) (storage : Option ScMap)
        → HasToken key storage
            (if is_instance_key key then extract_token_metadata storage else no_token)
    unfolding extract_token_metadata
    has_token key none = ground arith
    has_token key (some storage) = ground (arith, extract_token_metadata-HasMetadata storage)

    module _ (clock : ℕ → ℕ) where
      has_amount : (o : Option (Text × ℤ)) → HasAmount o (amount_of sdk clock input o)
      has_amount none = refl
      has_amount (some (holder, amount)) = refl

      data_data-RowOf :
          (n : ℕ) (t : ℤ) (gone : Bool) (entry : Entry ContractDataEntry) (id : Text)
          → MatchesRow
              (some (t, gone, entry, id))
              (some (data_data sdk clock input n t gone entry id))
      unfolding data_data
      data_data-RowOf n t gone entry id = (
        record {
          of_contract = refl;
          lasting = refl;
          of_asset = has_asset (sdk.asset_of entry);
          amount = has_amount (sdk.balance_of entry);
          token = has_token entry.body.key entry.body.storage;
          removed = refl;
          changed = refl;
          modified = refl;
          of_ledger = refl;
          closed = refl;
          in_range = refl;
          of_era = refl;
        },
        ground arith,
      )

      of_id :
          (n : ℕ) (t : ℤ) (gone : Bool) (entry : Entry ContractDataEntry) (r : Result Text)
          → MatchesRow
              (with_text t gone entry (elim r [ err e ↦ none | ok id ↦ some id ]))
              (data_with_id sdk clock input n t gone entry r)
      unfolding data_with_id
      of_id n t gone entry (err e) = tt
      of_id n t gone entry (ok id) = data_data-RowOf n t gone entry id

      of_bytes :
          (n : ℕ) (t : ℤ) (gone : Bool) (entry : Entry ContractDataEntry) (r : Result Text)
          → MatchesRow
              (with_text t gone entry (encoded r))
              (data_with_id sdk clock input n t gone entry (encoded_id sdk clock input r))
      unfolding data_with_id
      of_bytes n t gone entry (err e) = tt
      of_bytes n t gone entry (ok bytes) =
          of_id n t gone entry (sdk.values.strkey_encode version_contract bytes)

      of_contract :
          (n : ℕ) (t : ℤ) (gone : Bool) (entry : Entry ContractDataEntry) (contract : Option Text)
          → MatchesRow
              (with_text t gone entry (id_text contract))
              (data_with_id sdk clock input n t gone entry (contract_text sdk clock input contract))
      unfolding data_with_id
      of_contract n t gone entry none = tt
      of_contract n t gone entry (some hash) = of_bytes n t gone entry (sdk.marshal_hash hash)

      data_entry_row-Matches :
          (n : ℕ) (t : ℤ) (gone : Bool) (entry : Entry ContractDataEntry)
          → MatchesRow
              (of_entry entry.body.key t gone entry)
              (data_entry_row sdk clock input n t gone entry)
      unfolding data_entry_row
      data_entry_row-Matches n t gone entry = elim (key_cases entry.body.key t gone entry) [
        | inl (nonce, hidden) ↦ rw (nonce, hidden) tt
        | inr (other, visible) ↦
            rw (other, visible)
              (of_contract n t gone entry (sdk.values.get_contract_id entry.body.contract))
      ]

      data_row-Matches :
          (n : ℕ) (change : DataChange)
          → MatchesRow (shown change) (data_row sdk clock input n change)
      unfolding data_row
      data_row-Matches n (contract_data_change t none none) = tt
      data_row-Matches n (contract_data_change t (some pre) none) =
          data_entry_row-Matches n t true pre
      data_row-Matches n (contract_data_change t none (some post)) =
          data_entry_row-Matches n t false post
      data_row-Matches n (contract_data_change t (some pre) (some post)) =
          data_entry_row-Matches n t false post
      data_row-Matches n no_data_change = tt

      -- Every change of an entry that is not a nonce and whose contract's id can be encoded counts;
      -- of each contract, key type and key hash the last such change makes the one row, in
      -- increasing order of the key that is made of the three: that of the entry after the change,
      -- or, marked as deleted, of the entry that it removes. Only the entry of a contract's instance
      -- has token metadata: the last name, symbol and decimals under METADATA in its storage.
      pub extract_contract_data-IsTableOf :
          (changes : List DataChange)
          → IsTableOf data_key shown shown_key RowOf changes
              (extract_contract_data sdk clock input (ok changes))
      unfolding extract_contract_data
      extract_contract_data-IsTableOf =
          collect-IsTableOf data_key shown shown_key RowOf (data_row sdk clock input)
            data_row-Matches
