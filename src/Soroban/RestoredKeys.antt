-- ===== src/Soroban/RestoredKeys.antt =====
-- soroban.go, types_state.go: `ExtractRestoredKeys`.
pub mod Table
use stellar_extract.Prelude.{
  arith, ℕ, ◌≡◌, refl, Bool, true, false, Option, none, some, List, [], Text, text_ordered,
  if◌then◌else◌,
}
use stellar_extract.Go.Strings.{codes, hex_encode}
use stellar_extract.Ordering.{sorted_map_values}
use stellar_extract.Ordering.Snapshot.{nothing, collect, OfSome}
use stellar_extract.Ordering.Snapshot.Table.{Matches, IsTableOf, collect-IsTableOf}
use stellar_extract.Xdr.{Result, ok, err}
use stellar_extract.Xdr.Ledger.{LedgerInput}
use stellar_extract.Xdr.Values.{ScVal, ScValType, type_of}

pub data Durability : Type 0 where
  persistent temporary : Durability
  durability_other : ℕ → Durability

-- xdr.LedgerKeyContractData, as far as it is read
pub record RestoredData : Type 0 where
  pub contract_id : Option Text
  pub key : ScVal
  pub durability : Durability

-- xdr.LedgerKey: the two arms that are read may be unset.
pub data RestoredKey : Type 0 where
  restored_data : Option RestoredData → RestoredKey
  restored_code : Option Text → RestoredKey
  restored_ttl : RestoredKey
  restored_other : ℕ → RestoredKey

-- ingest.Change: whether its type is that of a restoration, and of the entry after it the derived
-- key, or the error of `LedgerKey`, and its last modification.
pub record RestoredEntry : Type 0 where
  pub ledger_key : Result RestoredKey
  pub last_modified_ledger_seq : ℕ

pub record KeyChange : Type 0 where
  pub is_restored : Bool
  pub post : Option RestoredEntry

-- The SDK's `MarshalBinary` and `String` methods, and `crypto/sha256`.
pub record RestoreSdk : Type 0 where
  pub marshal_key : RestoredKey → Result Text
  pub marshal_hash : Text → Result Text
  pub val_type_string : ScValType → Text
  pub key_type_string : RestoredKey → Text
  pub sha256 : Text → Text

pub record RestoredKeyData : Type 0 where
  pub key_hash : Text
  pub ledger_sequence : ℕ
  pub contract_id : Text
  pub key_type : Text
  pub durability : Text
  pub restored_from_ledger : ℕ
  pub closed_at : ℕ
  pub ledger_range : ℕ
  pub created_at : ℕ
  pub era_id : Option Text

unfoldable pub restored_entry_durability : RestoredKey → Text
restored_entry_durability (restored_data none) = codes "unknown"
restored_entry_durability (restored_data (some cd)) = elim cd.durability [
  | persistent ↦ codes "persistent"
  | temporary ↦ codes "temporary"
  | durability_other d ↦ codes "unknown"
]
restored_entry_durability (restored_code hash) = codes "persistent"
restored_entry_durability restored_ttl = codes "persistent"
restored_entry_durability (restored_other t) = codes "unknown"

module _ (sdk : RestoreSdk) (clock : ℕ → ℕ) (input : LedgerInput) where
  abbrev pub hex_or_empty : Result Text → Text
  hex_or_empty (err e) = []
  hex_or_empty (ok bytes) = hex_encode bytes

  abbrev pub id_or_empty : Option Text → Text
  id_or_empty none = []
  id_or_empty (some hash) = hex_or_empty (sdk.marshal_hash hash)

  -- the switch on the key's type: `contractID` and `keyType`
  unfoldable pub restored_names : RestoredKey → Text × Text
  unfolding hex_encode type_of
  restored_names (restored_data none) = ([], codes "ContractData")
  restored_names (restored_data (some cd)) =
      (id_or_empty cd.contract_id, sdk.val_type_string (type_of cd.key))
  restored_names (restored_code none) = ([], codes "ContractCode")
  restored_names (restored_code (some hash)) = (id_or_empty (some hash), codes "ContractCode")
  restored_names key = ([], sdk.key_type_string key)

  -- the caller sets the era
  restored_from_bytes : ℕ → RestoredKey → Text → ℕ → Result Text → Option RestoredKeyData
  unfolding restored_names hex_encode
  restored_from_bytes reading key durability from (err e) = none
  restored_from_bytes reading key durability from (ok bytes) = some (record {
    key_hash = hex_encode (sdk.sha256 bytes);
    ledger_sequence = input.sequence;
    contract_id = (restored_names key).0;
    key_type = (restored_names key).1;
    durability = durability;
    restored_from_ledger = from;
    closed_at = input.closed_at;
    ledger_range = input.ledger_range;
    created_at = clock reading;
    era_id = none;
  })

  extract_restored_key_data : ℕ → RestoredKey → Text → ℕ → Option RestoredKeyData
  unfolding restored_from_bytes
  extract_restored_key_data reading key durability from =
      restored_from_bytes reading key durability from (sdk.marshal_key key)

  abbrev with_era : Option RestoredKeyData → Option RestoredKeyData
  with_era none = none
  with_era (some row) = some (record row { era_id = input.era_id })

  restored_entry_row : ℕ → ℕ → Result RestoredKey → Option RestoredKeyData
  unfolding extract_restored_key_data restored_entry_durability
  restored_entry_row reading from (err e) = none
  restored_entry_row reading from (ok key) =
      with_era (extract_restored_key_data reading key (restored_entry_durability key) from)

  -- the body of the loop
  unfoldable pub restored_row : ℕ → KeyChange → Option RestoredKeyData
  unfolding restored_entry_row
  restored_row reading change =
      if change.is_restored
      then elim change.post [
        | none ↦ none
        | some entry ↦ restored_entry_row reading entry.last_modified_ledger_seq entry.ledger_key
      ]
      else none

  unfoldable pub extract_restored_keys : Result (List KeyChange) → List RestoredKeyData
  unfolding restored_row collect sorted_map_values
  extract_restored_keys (err e) = []
  extract_restored_keys (ok changes) =
      sorted_map_values (collect (λ r. r.key_hash) restored_row changes nothing).entries
