-- ===== src/Soroban/Creations.antt =====
-- soroban.go, types_soroban.go: `ExtractContractCreations`.
pub mod First
pub mod Executables
pub mod Made
use stellar_extract.Prelude.{
  ℕ, zero, suc, ◌+◌, ◌≤◌, ◌≡◌, refl, arith, Bool, true, false, Option, none, some, List, [], ◌∷◌,
  ◌++◌, Text, All, All-append, get_elem?, if◌then◌else◌, length, length-append,
}
use stellar_extract.Go.Strings.{codes, hex_encode}
use stellar_extract.Soroban.RestoredKeys.{Durability, persistent, temporary, durability_other}
use stellar_extract.TokenTransfers.{str_ptr}
use stellar_extract.Xdr.{Result, ok, err, Sdk, version_contract}
use stellar_extract.Xdr.Ledger.{LedgerInput}
use stellar_extract.Xdr.Values.{ScAddress}

pub record ExternalRef : Type 0 where
  pub executable_owner : ScAddress
  pub tag : Text

-- xdr.ContractExecutable; an arm may be unset.
pub data Executable : Type 0 where
  executable_wasm : Option Text → Executable
  executable_stellar_asset : Executable
  executable_external_ref : Option ExternalRef → Executable
  executable_other : ℕ → Executable

-- xdr.HostFunction: the executable of a creation, none where the arm is unset.
pub data CreationFunction : Type 0 where
  create_contract create_contract_v2 : Option Executable → CreationFunction
  other_function : CreationFunction

-- An operation: its source account, and its host function, if it invokes one.
pub record CreationOperation : Type 0 where
  pub source_account : Option Text
  pub host_function : Option CreationFunction

-- xdr.LedgerEntryChange: contract data that is created, or another change
pub data MetaChange : Type 0 where
  created_data : ScAddress → Durability → MetaChange
  other_meta_change : MetaChange

-- xdr.TransactionMeta: whether it has Soroban meta, and the changes of each operation.
pub data CreationMeta : Type 0 where
  meta_v3 meta_v4 : Bool → List (List MetaChange) → CreationMeta
  meta_other : ℕ → CreationMeta

pub record CreationTransaction : Type 0 where
  pub successful : Bool
  pub source : Text
  pub operations : List CreationOperation
  pub unsafe_meta : CreationMeta

pub record ExecutableColumns : Type 0 where
  pub executable_type : Text
  pub wasm_hash : Option Text
  pub external_ref_owner : Option Text
  pub external_ref_tag : Option Text

pub record ContractCreationData : Type 0 where
  pub contract_id : Text
  pub creator_address : Text
  pub executable : ExecutableColumns
  pub created_ledger : ℕ
  pub created_at : ℕ
  pub ledger_range : ℕ
  pub era_id : Option Text

-- `nullableString`
abbrev pub nullable_string : Text → Option Text
nullable_string [] = none
nullable_string (c ∷ s) = some (c ∷ s)

abbrev pub executable_named : Text → ExecutableColumns
executable_named t = record {
  executable_type = t;
  wasm_hash = none;
  external_ref_owner = none;
  external_ref_tag = none;
}

abbrev pub is_creation : Option CreationFunction → Bool
is_creation (some (create_contract e)) = true
is_creation (some (create_contract_v2 e)) = true
is_creation _ = false

abbrev pub executable_of : Option CreationFunction → Option Executable
executable_of (some (create_contract e)) = e
executable_of (some (create_contract_v2 e)) = e
executable_of _ = none

-- the changes of the operation at a position, none where the meta does not have them
abbrev pub or_none : Option (List MetaChange) → List MetaChange
or_none none = []
or_none (some changes) = changes

abbrev pub changes_of : CreationMeta → ℕ → List MetaChange
changes_of (meta_v3 soroban ops) i = if soroban then or_none (get_elem? ops i) else []
changes_of (meta_v4 soroban ops) i = if soroban then or_none (get_elem? ops i) else []
changes_of (meta_other v) i = []

-- `Address` of an account id and the `String` of an executable's type are the SDK's.
module _ (sdk : Sdk) (address_of : Text → Text) (executable_type_string : ℕ → Text)
    (input : LedgerInput) where
  owner_or_nil : Result Text → Option Text
  owner_or_nil (err e) = none
  owner_or_nil (ok owner) = some owner

  unfoldable pub apply_executable : Executable → ExecutableColumns
  unfolding hex_encode owner_or_nil
  apply_executable (executable_wasm none) = executable_named (codes "wasm")
  apply_executable (executable_wasm (some hash)) = record (executable_named (codes "wasm")) {
    wasm_hash = nullable_string (hex_encode hash);
  }
  apply_executable executable_stellar_asset = executable_named (codes "stellar_asset")
  apply_executable (executable_external_ref none) = executable_named (codes "external_ref")
  apply_executable (executable_external_ref (some ref)) =
      record (executable_named (codes "external_ref")) {
        external_ref_owner = owner_or_nil (sdk.address_string ref.executable_owner);
        external_ref_tag = nullable_string ref.tag;
      }
  apply_executable (executable_other t) = executable_named (executable_type_string t)

  abbrev pub columns_of : Option Executable → ExecutableColumns
  columns_of none = executable_named []
  columns_of (some e) = apply_executable e

  -- the contract that a change creates: persistent contract data of a contract's address, whose id
  -- can be encoded
  abbrev pub contract_str_key : Option Text → Option Text
  contract_str_key none = none
  contract_str_key (some id) = elim (sdk.strkey_encode version_contract id) [
    | err e ↦ none
    | ok s ↦ some s
  ]

  created_contract : MetaChange → Option Text
  created_contract (created_data contract persistent) =
      contract_str_key (sdk.get_contract_id contract)
  created_contract _ = none

  -- the inner loop, which ends at the first contract
  unfoldable pub first_created : List MetaChange → Option Text
  unfolding created_contract
  first_created [] = none
  first_created (change ∷ changes) = elim (created_contract change) [
    | none ↦ first_created changes
    | some id ↦ some id
  ]

  abbrev pub creator_of : Text → CreationOperation → Text
  creator_of source op = elim op.source_account [
    | none ↦ address_of source
    | some account ↦ address_of account
  ]

  unfoldable pub creation_data : Text → CreationOperation → Text → ContractCreationData
  unfolding apply_executable
  creation_data source op id = record {
    contract_id = id;
    creator_address = creator_of source op;
    executable = columns_of (executable_of op.host_function);
    created_ledger = input.sequence;
    created_at = input.closed_at;
    ledger_range = input.ledger_range;
    era_id = input.era_id;
  }

  abbrev creation_with_id : Text → CreationOperation → Option Text → List ContractCreationData
  creation_with_id source op none = []
  creation_with_id source op (some id) = creation_data source op id ∷ []

  -- the body of the loop over the operations
  operation_creation : CreationTransaction → ℕ → CreationOperation → List ContractCreationData
  unfolding first_created creation_data
  operation_creation tx i op =
      if is_creation op.host_function
      then creation_with_id tx.source op (first_created (changes_of tx.unsafe_meta i))
      else []

  operations_creations :
      CreationTransaction → ℕ → List CreationOperation → List ContractCreationData
  unfolding operation_creation
  operations_creations tx i [] = []
  operations_creations tx i (op ∷ ops) =
      operation_creation tx i op ++ operations_creations tx (i + 1) ops

  creations_loop : List CreationTransaction → List ContractCreationData
  unfolding operations_creations
  creations_loop [] = []
  creations_loop (tx ∷ txs) =
      (if tx.successful then operations_creations tx 0 tx.operations else []) ++ creations_loop txs

  unfoldable pub extract_contract_creations :
      Result (List CreationTransaction) → List ContractCreationData
  unfolding creations_loop
  extract_contract_creations (err e) = []
  extract_contract_creations (ok txs) = creations_loop txs
