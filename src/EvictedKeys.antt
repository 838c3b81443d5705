-- ===== src/EvictedKeys.antt =====
-- evicted_keys.go, types_state.go: `ExtractEvictedKeys`.
pub mod Rows
use stellar_extract.Prelude.{
  ℕ, Bool, true, false, Option, none, some, List, [], ◌∷◌, Text, text_ordered, if◌then◌else◌,
}
use stellar_extract.Go.Strings.{codes, hex_encode}
use stellar_extract.Ordering.{sorted_map_values}
use stellar_extract.Ordering.Snapshot.{nothing, collect}
use stellar_extract.Xdr.{Result, ok, err}
use stellar_extract.Xdr.Values.{ScVal, ScValType, ScAddress, type_of}
use stellar_extract.Xdr.Ledger.{LedgerInput}

-- xdr.LedgerKeyContractData, as far as it is read
pub record ContractDataKey : Type 0 where
  pub contract : ScAddress
  pub key : ScVal

-- xdr.LedgerKey: the two arms that are read may be unset; other keys have their type.
pub data LedgerKey : Type 0 where
  contract_data_key : Option ContractDataKey → LedgerKey
  contract_code_key : Option Text → LedgerKey
  other_key : ℕ → LedgerKey

-- xdr.LedgerCloseMeta, as far as it is read here.
pub data LedgerCloseMeta : Type 0 where
  meta_v1 meta_v2 : List LedgerKey → LedgerCloseMeta
  meta_other : ℕ → LedgerCloseMeta

-- The SDK's `MarshalBinary` and `String` methods, and `crypto/sha256`.
pub record KeySdk : Type 0 where
  pub marshal_key : LedgerKey → Result Text
  pub marshal_address : ScAddress → Result Text
  pub marshal_val : ScVal → Result Text
  pub marshal_hash : Text → Result Text
  pub val_type_string : ScValType → Text
  pub key_type_string : ℕ → Text
  pub sha256 : Text → Text

pub record EvictedKeyData : Type 0 where
  pub key_hash : Text
  pub ledger_sequence : ℕ
  pub contract_id : Text
  pub key_type : Text
  pub durability : Text
  pub closed_at : ℕ
  pub ledger_range : ℕ
  pub created_at : ℕ
  pub era_id : Option Text

module _ (sdk : KeySdk) where
  -- `err == nil && len(bytes) > 0`
  abbrev when_some : {A : Type 0} → Result Text → (Text → A) → A → A
  when_some (err e) f otherwise = otherwise
  when_some (ok []) f otherwise = otherwise
  when_some (ok (c ∷ bytes)) f otherwise = f (c ∷ bytes)

  -- the switch on the key's type: `contractID` and `keyType`
  identify : LedgerKey → Text × Text
  unfolding type_of
  identify (contract_data_key none) = ([], codes "ContractData")
  identify (contract_data_key (some k)) = (
    when_some (sdk.marshal_address k.contract) (λ b. hex_encode (sdk.sha256 b)) [],
    when_some (sdk.marshal_val k.key) (λ b. sdk.val_type_string (type_of k.key))
        (codes "ContractData"),
  )
  identify (contract_code_key none) = ([], codes "ContractCode")
  identify (contract_code_key (some hash)) =
      (when_some (sdk.marshal_hash hash) hex_encode [], codes "ContractCode")
  identify (other_key t) = ([], sdk.key_type_string t)

  module _ (clock : ℕ → ℕ) (input : LedgerInput) where
    evicted_data : ℕ → LedgerKey → Text → Text → EvictedKeyData
    unfolding identify
    evicted_data reading key durability bytes = record {
      key_hash = hex_encode (sdk.sha256 bytes);
      ledger_sequence = input.sequence;
      contract_id = (identify key).0;
      key_type = (identify key).1;
      durability = durability;
      closed_at = input.closed_at;
      ledger_range = input.ledger_range;
      created_at = clock reading;
      era_id = input.era_id;
    }

    -- a key that cannot be marshalled gives no row
    evicted_from_bytes : ℕ → LedgerKey → Text → Result Text → Option EvictedKeyData
    unfolding evicted_data
    evicted_from_bytes reading key durability (err e) = none
    evicted_from_bytes reading key durability (ok bytes) =
        some (evicted_data reading key durability bytes)

    unfoldable pub extract_evicted_key_data : ℕ → LedgerKey → Text → Option EvictedKeyData
    unfolding evicted_from_bytes
    extract_evicted_key_data reading key durability =
        evicted_from_bytes reading key durability (sdk.marshal_key key)

    -- the body of the loop
    pub evicted_row : ℕ → LedgerKey → Option EvictedKeyData
    unfolding extract_evicted_key_data
    evicted_row reading key = extract_evicted_key_data reading key (codes "unknown")

    rows_of_keys : List LedgerKey → List EvictedKeyData
    unfolding evicted_row collect sorted_map_values
    rows_of_keys keys =
        sorted_map_values (collect (λ r. r.key_hash) evicted_row keys nothing).entries

    unfoldable pub extract_evicted_keys : LedgerCloseMeta → List EvictedKeyData
    unfolding rows_of_keys
    extract_evicted_keys (meta_v1 keys) = rows_of_keys keys
    extract_evicted_keys (meta_v2 keys) = rows_of_keys keys
    extract_evicted_keys (meta_other v) = []
