-- ===== src/Soroban/ContractData.antt =====
-- soroban.go, types_soroban.go: `ExtractContractData`.
pub mod Rows
pub mod Token
use stellar_extract.Prelude.{
  ℕ, ◌≡◌, arith, Bool, true, false, Option, none, some, List, [], ◌∷◌, ◌++◌, Text, text_ordered,
  ◌==◌, if◌then◌else◌, ltb, length, ◌||◌,
}
use stellar_extract.Go.Ints.{ℤ, to_i32}
use stellar_extract.Go.Strings.{codes, hex_encode, base64_encode, decimal_int}
use stellar_extract.Ordering.{sorted_map_values}
use stellar_extract.Ordering.Snapshot.{nothing, collect, OfSome, IsSnapshotOf, collect_lem}
use stellar_extract.Soroban.Events.{base64_or_empty}
use stellar_extract.Xdr.{Result, ok, err, Sdk, version_contract}
use stellar_extract.Xdr.Ledger.{Entry, LedgerInput}
use stellar_extract.Xdr.Values.{
  ScAddress, ScVal, ScMap, no_entries, and_entry, scv_u32, scv_string, scv_symbol, scv_map,
  scv_ledger_key_nonce, scv_ledger_key_contract_instance, type_of,
}

-- xdr.ContractDataEntry. Of a value only the storage of a contract instance is read, which is none
-- for other values and for an instance without storage.
pub record ContractDataEntry : Type 0 where
  pub contract : ScAddress
  pub key : ScVal
  pub durability : ℕ
  pub storage : Option ScMap
  pub payload : ScVal

-- ingest.Change, with its `Type`; the entries are contract data.
pub data DataChange : Type 0 where
  contract_data_change :
      ℤ → Option (Entry ContractDataEntry) → Option (Entry ContractDataEntry) → DataChange
  no_data_change : DataChange

-- what is read of the asset that `sac.AssetFromContractData` finds
pub data SacAsset : Type 0 where
  sac_native : SacAsset
  sac_issued : (asset_code : Text) → (issuer : Text) → SacAsset

-- The SDK: `MarshalBinary` of a hash and of an entry, `LedgerKey` with its `MarshalBinary`, the
-- `String` of a durability, package sac for the network, and `crypto/sha256`.
pub record DataSdk : Type 0 where
  pub values : Sdk
  pub marshal_hash : Text → Result Text
  pub marshal_data : ContractDataEntry → Result Text
  pub key_bytes : Entry ContractDataEntry → Result Text
  pub durability_string : ℕ → Text
  pub asset_of : Entry ContractDataEntry → Option SacAsset
  pub balance_of : Entry ContractDataEntry → Option (Text × ℤ)
  pub sha256 : Text → Text

pub record TokenMetadata : Type 0 where
  pub token_name : Option Text
  pub token_symbol : Option Text
  pub token_decimals : Option ℤ

abbrev pub no_token : TokenMetadata
no_token = record { token_name = none; token_symbol = none; token_decimals = none }

pub record SacColumns : Type 0 where
  pub asset_code : Option Text
  pub asset_issuer : Option Text
  pub asset_type : Option Text

pub record ContractDataData : Type 0 where
  pub contract_id : Text
  pub ledger_sequence : ℕ
  pub ledger_key_hash : Text
  pub contract_key_type : Text
  pub contract_durability : Text
  pub asset : SacColumns
  pub balance_holder : Option Text
  pub balance : Option Text
  pub last_modified_ledger : ℤ
  pub ledger_entry_change : ℤ
  pub deleted : Bool
  pub closed_at : ℕ
  pub contract_data_xdr : Text
  pub token : TokenMetadata
  pub created_at : ℕ
  pub ledger_range : ℕ
  pub era_id : Option Text

-- the switch on an item of a METADATA map
token_item : Text → ScVal → TokenMetadata → TokenMetadata
token_item key (scv_string (some s)) m =
    if key == codes "name"
    then record m { token_name = some s }
    else if key == codes "symbol"
    then record m { token_symbol = some s }
    else m
token_item key (scv_u32 (some n)) m =
    if key == codes "decimal" || key == codes "decimals"
    then record m { token_decimals = some (to_i32 n) }
    else m
token_item key _ m = m

token_items : ScMap → TokenMetadata → TokenMetadata
unfolding token_item
token_items no_entries m = m
token_items (and_entry (scv_symbol (some key)) v items) m = token_items items (token_item key v m)
token_items (and_entry _ v items) m = token_items items m

-- the items that are looked at in one entry of the storage
metadata_items : ScVal → ScVal → ScMap
metadata_items (scv_symbol (some sym)) (scv_map items) =
    if sym == codes "METADATA" then items else no_entries
metadata_items _ _ = no_entries

token_storage : ScMap → TokenMetadata → TokenMetadata
unfolding token_items metadata_items
token_storage no_entries m = m
token_storage (and_entry k v entries) m = token_storage entries (token_items (metadata_items k v) m)

unfoldable pub extract_token_metadata : Option ScMap → TokenMetadata
unfolding token_storage
extract_token_metadata none = no_token
extract_token_metadata (some storage) = token_storage storage no_token

unfoldable pub sac_columns : Option SacAsset → SacColumns
sac_columns none = record { asset_code = none; asset_issuer = none; asset_type = none }
sac_columns (some sac_native) = record {
  asset_code = none;
  asset_issuer = none;
  asset_type = some (codes "native");
}
sac_columns (some (sac_issued asset_code issuer)) = record {
  asset_code = some asset_code;
  asset_issuer = some issuer;
  asset_type =
      some
        (if ltb 4 (length asset_code) then codes "credit_alphanum12" else codes "credit_alphanum4");
}

abbrev pub is_nonce : ScVal → Bool
is_nonce (scv_ledger_key_nonce n) = true
is_nonce _ = false

abbrev pub is_instance_key : ScVal → Bool
is_instance_key scv_ledger_key_contract_instance = true
is_instance_key _ = false

-- `dedupeKey`
abbrev pub data_key : ContractDataData → Text
data_key r = r.contract_id ++ (b'_' ∷ (r.contract_key_type ++ (b'_' ∷ r.ledger_key_hash)))

module _ (sdk : DataSdk) (clock : ℕ → ℕ) (input : LedgerInput) where
  abbrev pub hash_or_empty : Result Text → Text
  hash_or_empty (err e) = []
  hash_or_empty (ok bytes) = hex_encode (sdk.sha256 bytes)

  abbrev pub holder_of : Option (Text × ℤ) → Option Text
  holder_of none = none
  holder_of (some (holder, amount)) = elim (sdk.values.strkey_encode version_contract holder) [
    | err e ↦ none
    | ok s ↦ some s
  ]

  abbrev pub amount_of : Option (Text × ℤ) → Option Text
  amount_of none = none
  amount_of (some (holder, amount)) = some (decimal_int amount)

  data_data : ℕ → ℤ → Bool → Entry ContractDataEntry → Text → ContractDataData
  unfolding sac_columns extract_token_metadata type_of hex_encode base64_encode decimal_int
  data_data reading change_type deleted entry contract_id = record {
    contract_id = contract_id;
    ledger_sequence = input.sequence;
    ledger_key_hash = hash_or_empty (sdk.key_bytes entry);
    contract_key_type = sdk.values.type_string (type_of entry.body.key);
    contract_durability = sdk.durability_string entry.body.durability;
    asset = sac_columns (sdk.asset_of entry);
    balance_holder = holder_of (sdk.balance_of entry);
    balance = amount_of (sdk.balance_of entry);
    last_modified_ledger = to_i32 entry.last_modified_ledger_seq;
    ledger_entry_change = change_type;
    deleted = deleted;
    closed_at = input.closed_at;
    contract_data_xdr = base64_or_empty (sdk.marshal_data entry.body);
    token =
        if is_instance_key entry.body.key
        then extract_token_metadata entry.body.storage
        else no_token;
    created_at = clock reading;
    ledger_range = input.ledger_range;
    era_id = input.era_id;
  }

  -- the text of the contract's id, where the address is a contract's and can be encoded
  abbrev pub encoded_id : Result Text → Result Text
  encoded_id (err e) = err e
  encoded_id (ok bytes) = sdk.values.strkey_encode version_contract bytes

  abbrev pub contract_text : Option Text → Result Text
  contract_text none = err []
  contract_text (some hash) = encoded_id (sdk.marshal_hash hash)

  data_with_id : ℕ → ℤ → Bool → Entry ContractDataEntry → Result Text → Option ContractDataData
  unfolding data_data
  data_with_id reading change_type deleted entry (err e) = none
  data_with_id reading change_type deleted entry (ok id) =
      some (data_data reading change_type deleted entry id)

  -- nonce keys are skipped
  data_entry_row : ℕ → ℤ → Bool → Entry ContractDataEntry → Option ContractDataData
  unfolding data_with_id
  data_entry_row reading change_type deleted entry =
      if is_nonce entry.body.key
      then none
      else data_with_id reading change_type deleted entry
          (contract_text (sdk.values.get_contract_id entry.body.contract))

  -- the body of the loop: the entry after the change, or else the one before it
  unfoldable pub data_row : ℕ → DataChange → Option ContractDataData
  unfolding data_entry_row
  data_row reading (contract_data_change t pre (some post)) = data_entry_row reading t false post
  data_row reading (contract_data_change t (some pre) none) = data_entry_row reading t true pre
  data_row reading _ = none

  unfoldable pub extract_contract_data : Result (List DataChange) → List ContractDataData
  unfolding data_row collect sorted_map_values
  extract_contract_data (err e) = []
  extract_contract_data (ok changes) =
      sorted_map_values (collect data_key data_row changes nothing).entries
